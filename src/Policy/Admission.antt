-- ===== src/Policy/Admission.antt =====
-- What a rule admits, stated without the loops of PolicyRule::match in src/policy/policy.cpp.
use smithproxy.Base.{ℕ, ◌≡◌, ◌≢◌, ◌⊎◌, false, List, [], Option, none, some, All, Any}
use smithproxy.Base.Int.{ℤ, pos, ◌≤ℤ◌}
use smithproxy.Dns.{Packet}
use smithproxy.Dns.Response.{get_a_answers}
use smithproxy.Policy.Address.{AddressObject, cidr_address, fqdn_address, find_dns_response}
use smithproxy.Policy.Rule.{Rule, HostCx, sock_2_net}
use smithproxy.Policy.Match.{PolicyEnv}

-- Port ranges: no range at all, or one that the number lies in.
abbrev pub PortCovers : List (ℤ × ℤ) → ℤ → Type 0
PortCovers ranges p = (ranges ≡ []) ⊎ ((pos 0 ≤ℤ p) × Any (λ r. (r.0 ≤ℤ p) × (p ≤ℤ r.1)) ranges)

-- The protocol of a context is the rule's.
abbrev pub HasProto : ℕ → Option HostCx → Type 0
HasProto p none = ⊥
HasProto p (some cx) = (t : ℕ) × (cx.l4_proto ≡ some t) × (p ≡ sock_2_net t)

-- A context whose protocol is known.
abbrev pub KnownProto : Option HostCx → Type 0
KnownProto none = ⊥
KnownProto (some cx) = (t : ℕ) × (cx.l4_proto ≡ some t) × (sock_2_net t ≢ 0)

-- No context on this side, or one at least that the group covers.
abbrev pub SideCovers : (Option HostCx → Type 0) → List (Option HostCx) → Type 0
SideCovers P l = (l ≡ []) ⊎ Any P l

module _ (env : PolicyEnv) where
  open env use {lib, dns_cache, safe_val}
  open lib use {Cidr, cidr_from_str, cidr_contains, proto}

  -- The object contains the address, or the name resolves, in the cache, to one that does.
  abbrev pub ObjectCovers : AddressObject Cidr → Cidr → Type 0
  ObjectCovers (cidr_address c) a = pos 0 ≤ℤ cidr_contains c (some a)
  ObjectCovers (fqdn_address f) a =
      (r : Packet) × (find_dns_response lib dns_cache f (proto a) ≡ some r)
      × Any (λ ip. pos 0 ≤ℤ cidr_contains ip (some a)) (get_a_answers lib r)

  -- A context whose host is an address.
  abbrev pub Readable : Option HostCx → Type 0
  Readable none = ⊥
  Readable (some cx) = (a : Cidr) × (cidr_from_str cx.host ≡ some a)

  abbrev pub AddrCovers : List (AddressObject Cidr) → Option HostCx → Type 0
  AddrCovers sources none = ⊥
  AddrCovers sources (some cx) =
      (sources ≡ [])
      ⊎ ((a : Cidr) × (cidr_from_str cx.host ≡ some a) × Any (λ s. ObjectCovers s a) sources)

  abbrev pub RangeCovers : List (ℤ × ℤ) → Option HostCx → Type 0
  RangeCovers ranges none = ⊥
  RangeCovers ranges (some cx) = PortCovers ranges (safe_val cx.port)

  pub record Admits (rule : Rule Cidr) (l r : List (Option HostCx)) : Type 0 where
    pub enabled : rule.is_disabled ≡ false
    pub same_proto : (rule.proto ≡ 0) ⊎ All (HasProto rule.proto) l
    pub from_address : SideCovers (AddrCovers rule.src) l
    pub from_port : SideCovers (RangeCovers rule.src_ports) l
    pub to_address : SideCovers (AddrCovers rule.dst) r
    pub to_port : SideCovers (RangeCovers rule.dst_ports) r
