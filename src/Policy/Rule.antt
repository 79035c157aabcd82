-- ===== src/Policy/Rule.antt =====
-- src/policy/policy.hpp and policy.cpp: a rule and its match against a session's contexts.
use smithproxy.Base.{
  ℕ, Bool, true, false, ◌&&◌, List, [], ◌∷◌, Option, none, some, Text, ◌==◌, if◌then◌else◌,
}
use smithproxy.Base.Int.{ℤ, pos, leb_ℤ, ltb_ℤ}
use smithproxy.Base.Outcome.{Outcome, value, throws, undefined, logic_error, ◌>>=◌, ◌and_then◌}
use smithproxy.Cidr.{CidrLib}
use smithproxy.Dns.{Packet}
use smithproxy.Policy.Address.{AddressObject, address_match}

-- What the policy reads of a socle host context: host(), port(), and l4_proto() of com(), which is
-- `none` where com() is null.
pub record HostCx : Type 0 where
  pub host : Text
  pub port : Text
  pub l4_proto : Option ℕ

abbrev pub sock_stream : ℕ
sock_stream = 1

abbrev pub sock_dgram : ℕ
sock_dgram = 2

abbrev pub action_deny : ℤ
action_deny = pos 0

abbrev pub action_pass : ℤ
action_pass = pos 1

abbrev pub nat_none : ℤ
nat_none = pos 0

-- A group of ports is a list of ranges; a rule names its profiles by their index in the
-- configuration, if it has them.
pub record Rule (Cidr : Type 0) : Type 0 where
  pub cnt_matches : ℕ
  pub is_disabled : Bool
  pub proto : ℕ
  pub src : List (AddressObject Cidr)
  pub src_ports : List (ℤ × ℤ)
  pub dst : List (AddressObject Cidr)
  pub dst_ports : List (ℤ × ℤ)
  pub action : ℤ
  pub nat : ℤ
  pub profile_auth : Option ℕ
  pub profile_routing : Option ℕ

-- The four lists of contexts of a socle baseProxy.
pub record ProxySides : Type 0 where
  pub ls : List (Option HostCx)
  pub lda : List (Option HostCx)
  pub rs : List (Option HostCx)
  pub rda : List (Option HostCx)

unfoldable pub sock_2_net : ℕ → ℕ
sock_2_net t = if t == sock_stream then 6 else if t == sock_dgram then 17 else 0

unfoldable pub match_com : ℕ → Option ℕ → Outcome Bool
match_com acl_proto none = value false
match_com acl_proto (some t) =
    if sock_2_net t == 0 then throws logic_error else value (acl_proto == sock_2_net t)

unfoldable pub match_proto_cx : ℕ → Option HostCx → Outcome Bool
match_proto_cx acl_proto none = value false
match_proto_cx acl_proto (some cx) = match_com acl_proto cx.l4_proto

unfoldable pub match_proto_all : ℕ → List (Option HostCx) → Outcome Bool
match_proto_all acl_proto [] = value true
match_proto_all acl_proto (cx ∷ cxs) =
    match_proto_cx acl_proto cx and_then match_proto_all acl_proto cxs

-- Every context has to carry the protocol.
unfoldable pub match_proto_vecx : ℕ → List (Option HostCx) → Outcome Bool
match_proto_vecx acl_proto [] = value true
match_proto_vecx acl_proto (cx ∷ cxs) = match_proto_all acl_proto (cx ∷ cxs)

unfoldable pub in_range : ℤ → ℤ × ℤ → Bool
in_range p (first, second) = leb_ℤ first p && leb_ℤ p second

unfoldable pub match_ranges : ℤ → List (ℤ × ℤ) → Bool
match_ranges p [] = false
match_ranges p (r ∷ rs) = if in_range p r then true else match_ranges p rs

-- The library's number parser `safe_val` gives a negative number where the text is no number.
module _ (safe_val : Text → ℤ) where
  unfoldable pub match_rangegrp_cx : List (ℤ × ℤ) → Option HostCx → Outcome Bool
  match_rangegrp_cx [] cx = value true
  match_rangegrp_cx (r ∷ rs) none = undefined
  match_rangegrp_cx (r ∷ rs) (some cx) =
      if ltb_ℤ (safe_val cx.port) (pos 0)
      then value false
      else value (match_ranges (safe_val cx.port) (r ∷ rs))

  unfoldable pub match_range_any : List (ℤ × ℤ) → List (Option HostCx) → Outcome Bool
  match_range_any ranges [] = value false
  match_range_any ranges (cx ∷ cxs) = do
    m ← match_rangegrp_cx ranges cx
    if m then value true else match_range_any ranges cxs

  unfoldable pub match_rangegrp_vecx : List (ℤ × ℤ) → List (Option HostCx) → Outcome Bool
  match_rangegrp_vecx ranges [] = value true
  match_rangegrp_vecx ranges (cx ∷ cxs) = match_range_any ranges (cx ∷ cxs)

module _ (lib : CidrLib) (dns_cache : Text → Option Packet) where
  open lib use {Cidr, cidr_from_str}

  unfoldable pub match_addrs : List (AddressObject Cidr) → Option Cidr → Outcome Bool
  match_addrs [] l = value false
  match_addrs (comp ∷ comps) l = do
    m ← address_match lib dns_cache comp l
    if m then value true else match_addrs comps l

  unfoldable pub match_addrgrp_cx : List (AddressObject Cidr) → Option HostCx → Outcome Bool
  match_addrgrp_cx [] cx = value true
  match_addrgrp_cx (s ∷ ss) none = undefined
  match_addrgrp_cx (s ∷ ss) (some cx) = match_addrs (s ∷ ss) (cidr_from_str cx.host)

  unfoldable pub match_addr_any : List (AddressObject Cidr) → List (Option HostCx) → Outcome Bool
  match_addr_any sources [] = value false
  match_addr_any sources (cx ∷ cxs) = do
    m ← match_addrgrp_cx sources cx
    if m then value true else match_addr_any sources cxs

  unfoldable pub match_addrgrp_vecx :
      List (AddressObject Cidr) → List (Option HostCx) → Outcome Bool
  match_addrgrp_vecx sources [] = value true
  match_addrgrp_vecx sources (cx ∷ cxs) = match_addr_any sources (cx ∷ cxs)
