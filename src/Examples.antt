-- ===== src/Examples.antt =====
-- Concrete contexts and rules for the theorems' hypotheses; requests and sessions are in the children.
pub mod Names
pub mod Packets
pub mod Inspections
pub mod Hosts
pub mod Identities
pub mod Portal
pub mod Certificates
pub mod Requests
pub mod Sessions
pub mod Handoffs
pub mod Denials
pub mod Datagrams
use mathlib.Core.Path.{subst}
use smithproxy.Base.{
  ℕ, Bool, true, false, List, [], ◌∷◌, ◌++◌, Option, none, some, Text, same_text, ◌≡◌, ◌≢◌, ◌↔◌,
  ◌⊎◌, refl, inl, inr, ◌<◌, ◌+◌, ◌*◌, All, length, get_elem?, if◌then◌else◌, arith,
}
use smithproxy.Base.Int.{ℤ, pos, minus_one}
use smithproxy.Base.Outcome.{Outcome, value}
use smithproxy.Base.Bytes.{plain_buffers, plain_buffers-IsBuffers}
use smithproxy.Cidr.{CidrLib}
use smithproxy.Dns.Response.{ascii}
use smithproxy.Policy.Address.{AddressObject, cidr_address}
use smithproxy.Policy.Rule.{Rule, HostCx, sock_2_net, sock_dgram, action_deny, action_pass}
use smithproxy.Policy.Match.{PolicyEnv, match_lr, count_match}
use smithproxy.Policy.Table.{policy_match_lr}
use smithproxy.Policy.Admission.{KnownProto, Readable, Admits}
use smithproxy.Policy.Deciding.{match_lr-Admits}
use smithproxy.Policy.Choice.{Chosen, policy_match_lr-first}

abbrev compare_texts : Option Text → Option Text → ℤ
compare_texts (some a) (some b) = if same_text a b then pos 0 else minus_one
compare_texts (some a) none = minus_one
compare_texts none b = minus_one

-- A CIDR library that knows single addresses only.
abbrev exact_cidrs : CidrLib
exact_cidrs = record {
  Cidr = Text;
  cidr_from_str = λ t. some t;
  cidr_from_inaddr = λ a. none;
  cidr_from_in6addr = λ a. none;
  cidr_contains = compare_texts;
  proto = λ c. 1;
  cidr_ipv4 = 1;
  cidr_ipv6 = 2;
}

abbrev ports : PolicyEnv
ports = record { lib = exact_cidrs; dns_cache = λ t. none; safe_val = λ t. pos (length t) }

abbrev client : HostCx
client = record { host = 49 ∷ []; port = 50 ∷ []; l4_proto = some 1 }

abbrev server : HostCx
server = record { host = 57 ∷ []; port = 56 ∷ 48 ∷ []; l4_proto = some 1 }

-- A rule for the server's address and any port, with an action.
abbrev server_rule : ℤ → Rule Text
server_rule action = record {
  cnt_matches = 0;
  is_disabled = false;
  proto = 6;
  src = [];
  src_ports = [];
  dst = cidr_address (some (57 ∷ [])) ∷ [];
  dst_ports = [];
  action = action;
  nat = pos 1;
  profile_auth = none;
  profile_routing = none;
}

stream_known : sock_2_net 1 ≢ 0
unfolding sock_2_net
stream_known e = omega arith

known : (cx : HostCx) → cx.l4_proto ≡ some 1 → KnownProto (some cx)
known cx e = (1, e, stream_known)

match_lr-Admits_example :
    (Admits ports (server_rule action_pass) (some client ∷ []) (some server ∷ [])
      × (match_lr ports (server_rule action_pass) (some client ∷ []) (some server ∷ [])
          ≡ value (count_match (server_rule action_pass), true)))
    ⊎ ((¬ Admits ports (server_rule action_pass) (some client ∷ []) (some server ∷ []))
        × (match_lr ports (server_rule action_pass) (some client ∷ []) (some server ∷ [])
            ≡ value (server_rule action_pass, false)))
match_lr-Admits_example =
    match_lr-Admits ports (server_rule action_pass) (some client ∷ []) (some server ∷ [])
      (known client refl, tt) ((49 ∷ [], refl), tt) ((57 ∷ [], refl), tt)

policy_match_lr-first_example :
    Chosen
      (λ rule. Admits ports rule (some client ∷ []) (some server ∷ []))
      (policy_match_lr ports
        (server_rule action_deny ∷ server_rule action_pass ∷ [])
        (some client ∷ [])
        (some server ∷ []))
      0
      (server_rule action_deny ∷ server_rule action_pass ∷ [])
policy_match_lr-first_example =
    policy_match_lr-first ports (server_rule action_deny ∷ server_rule action_pass ∷ [])
      (some client ∷ []) (some server ∷ []) (known client refl, tt) ((49 ∷ [], refl), tt)
      ((57 ∷ [], refl), tt)
