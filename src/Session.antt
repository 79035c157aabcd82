-- ===== src/Session.antt =====
-- src/proxy/mitmproxy.hpp, src/policy/profiles.hpp and src/proxy/mitmhost.hpp: what the code that
-- sets a session up keeps. Log lines and locks are left out.
pub mod Route
pub mod Identity
pub mod Apply
pub mod Policy
pub mod Accept
pub mod Datagram
pub mod Alike
pub mod Handoff
pub mod Message
pub mod Balance
pub mod Authorized
pub mod Marked
pub mod Admitted
pub mod Opened
pub mod Denied
pub mod Verdicts
pub mod Passed
pub mod Steps
use smithproxy.Base.{ℕ, Bool, false, List, [], ◌∷◌, Option, none, some, Text, map}
use smithproxy.Base.Int.{ℤ, pos, minus_one}
use smithproxy.Base.Outcome.{Outcome}
use smithproxy.Policy.Rule.{Rule, HostCx, ProxySides}
use smithproxy.Policy.Match.{PolicyEnv}

abbrev pub policy_implicit_pass : ℤ
policy_implicit_pass = pos 65500

-- A MitmHostCX with the settings of its com(); `bypass` is there if the com is an SSLCom.
pub record MitmCx : Type 0 where
  pub host : Text
  pub port : Text
  pub l3_proto : ℕ
  pub l4_proto : ℕ
  pub bypass : Option Bool
  pub waiting_for_peercom : Bool
  pub matched_policy : ℤ
  pub nonlocal_src : Bool
  pub nonlocal_src_host : Text
  pub nonlocal_src_port : ℕ

-- A MitmProxy: its four lists of contexts, the l3_proto() of its com(), and whether it was told to
-- connect its right side.
pub record Proxy : Type 0 where
  pub ls : List MitmCx
  pub lda : List MitmCx
  pub rs : List MitmCx
  pub rda : List MitmCx
  pub com_l3_proto : ℕ
  pub matched_policy : ℤ
  pub opt_auth_authenticate : Bool
  pub opt_auth_resolve : Bool
  pub auth_block_identity : Bool
  pub connected : Bool
  pub dead : Bool

pub data LbMethod : Type 0 where
  lb_rr lb_l3 lb_l4 : LbMethod

-- A ProfileRouting with its LbState; a candidate is the text of its address.
pub record Routing : Type 0 where
  pub dnat_addresses : List Text
  pub dnat_ports : List Text
  pub dnat_lb_method : LbMethod
  pub rr_counter : ℕ
  pub last_refresh : ℕ
  pub candidates_v4 : List Text
  pub candidates_v6 : List Text

-- A ProfileSubAuth: its name, and whether it has a TLS and a DNS profile.
pub record SubAuth : Type 0 where
  pub element_name : Text
  pub profile_tls : Bool
  pub profile_alg_dns : Bool

-- A ProfileAuth.
pub record AuthProfile : Type 0 where
  pub authenticate : Bool
  pub resolve : Bool
  pub sub_policies : List SubAuth

-- The part of the configuration that a session changes: the policy list, for its counters, and the
-- routing profiles.
pub record Store (Cidr : Type 0) : Type 0 where
  pub rules : List (Rule Cidr)
  pub routings : List Routing

-- What a session reads: the configuration, the identities known at this moment (resolve_identity
-- and the groups of an address), the clock, and calls outside this repository (std::stoi,
-- raw::try_down_cast, "%d" of string_format, the library's CRC-32).
pub record SessionEnv : Type 1 where
  pub policy_env : PolicyEnv
  pub auth_profiles : List AuthProfile
  pub lookup_port : Text → Option (ℤ × ℤ)
  pub expand_to_cidr : List Text → ℕ → List Text
  pub tenant_magic_ip : Text
  pub tenant_index : ℤ
  pub portal_port_http : Text
  pub portal_port_https : Text
  pub resolve_identity : ℕ → Text → Bool
  pub ip4_get_groups : Text → Option (List Text)
  pub ip6_get_groups : Text → Option (List Text)
  pub now : ℕ
  pub stoi : Text → Outcome ℤ
  pub try_down_cast_u16 : ℤ → Outcome ℕ
  pub format_d : ℤ → Text
  pub crc32 : Text → ℕ

unfoldable pub first_of : List MitmCx → List MitmCx → Option MitmCx
first_of (x ∷ xs) delayed = some x
first_of [] (y ∷ ys) = some y
first_of [] [] = none

-- The first context, or else the first delayed one.
unfoldable pub first_left : Proxy → Option MitmCx
first_left p = first_of p.ls p.lda

unfoldable pub first_right : Proxy → Option MitmCx
first_right p = first_of p.rs p.rda

-- A change through the pointer that `first_of` returns.
unfoldable pub at_first : (MitmCx → MitmCx) → List MitmCx → List MitmCx → List MitmCx × List MitmCx
at_first f (x ∷ xs) delayed = (f x ∷ xs, delayed)
at_first f [] (y ∷ ys) = ([], f y ∷ ys)
at_first f [] [] = ([], [])

unfoldable pub at_first_left : (MitmCx → MitmCx) → Proxy → Proxy
at_first_left f p = record p { ls = (at_first f p.ls p.lda).0; lda = (at_first f p.ls p.lda).1 }

unfoldable pub at_first_right : (MitmCx → MitmCx) → Proxy → Proxy
at_first_right f p = record p { rs = (at_first f p.rs p.rda).0; rda = (at_first f p.rs p.rda).1 }

-- What the policy's match reads of a context and of a proxy.
abbrev pub host_cx : MitmCx → HostCx
host_cx cx = record { host = cx.host; port = cx.port; l4_proto = some cx.l4_proto }

abbrev pub host_cxs : List MitmCx → List (Option HostCx)
host_cxs xs = map (λ cx. some (host_cx cx)) xs

abbrev pub sides : Proxy → ProxySides
sides p = record {
  ls = host_cxs p.ls;
  lda = host_cxs p.lda;
  rs = host_cxs p.rs;
  rda = host_cxs p.rda;
}

-- A MitmProxy as its constructor leaves it.
abbrev pub new_proxy : ℕ → Proxy
new_proxy l3 = record {
  ls = [];
  lda = [];
  rs = [];
  rda = [];
  com_l3_proto = l3;
  matched_policy = minus_one;
  opt_auth_authenticate = false;
  opt_auth_resolve = false;
  auth_block_identity = false;
  connected = false;
  dead = false;
}
