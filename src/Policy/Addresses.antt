-- ===== src/Policy/Addresses.antt =====
-- The addresses of a rule of src/policy/policy.cpp decide what they cover.
use smithproxy.Base.{
  ◌≡◌, refl, ◌↔◌, inl, inr, true, List, [], ◌∷◌, Option, none, some, Text, arith, All, Any,
  Option-cases, of_some,
}
use smithproxy.Base.Int.{ℤ, pos, ◌≤ℤ◌}
use smithproxy.Base.Decides.{Decides, holds, fails, Decides-value, Decides-iff, Decides-or_else}
use smithproxy.Dns.Response.{get_a_answers}
use smithproxy.Policy.Address.{
  AddressObject, cidr_address, fqdn_address, cidr_match, find_dns_response, match_any_ip,
  fqdn_match, address_match,
}
use smithproxy.Policy.Rule.{
  HostCx, match_rangegrp_cx, match_addrs, match_addrgrp_cx, match_addr_any, match_addrgrp_vecx,
}
use smithproxy.Policy.Match.{PolicyEnv}
use smithproxy.Policy.Admission.{ObjectCovers, Readable, AddrCovers, RangeCovers, SideCovers}
use smithproxy.Policy.Ports.{rangegrp_cx_decides}

module _ (env : PolicyEnv) where
  open env use {lib, dns_cache, safe_val}
  open lib use {Cidr, cidr_from_str, cidr_contains}

  Any-ip_iff :
      (a : Cidr) (ips : List (Option Cidr))
      → (match_any_ip lib dns_cache ips (some a) ≡ true)
        ↔ Any (λ ip. pos 0 ≤ℤ cidr_contains ip (some a)) ips
  unfolding match_any_ip cidr_match
  Any-ip_iff a [] = ((λ e. cc), λ b. absurd b)
  Any-ip_iff a (ip ∷ ips) =
      (ground (arith, (Any-ip_iff a ips).0), ground (arith, (Any-ip_iff a ips).1))

  fqdn_iff :
      (f : Text) (a : Cidr)
      → (fqdn_match lib dns_cache f a ≡ true) ↔ ObjectCovers env (fqdn_address f) a
  unfolding fqdn_match
  fqdn_iff f a = elim (Option-cases (find_dns_response lib dns_cache f (lib.proto a))) [
    | inl e ↦ rw (e, fqdn_match) ((λ h. cc), λ t. cc t.1)
    | inr (r, e) ↦
        let ips = Any-ip_iff a (get_a_answers lib r) in
        rw (e, fqdn_match)
          (
            (λ h. (r, refl, ips.0 h)),
            λ t. ips.1 (
                of_some (λ q. Any (λ ip. pos 0 ≤ℤ cidr_contains ip (some a)) (get_a_answers lib q))
                  r t),
          )
  ]

  address_decides :
      (s : AddressObject Cidr) (a : Cidr)
      → Decides (address_match lib dns_cache s (some a)) (ObjectCovers env s a)
  unfolding address_match
  address_decides (cidr_address c) a =
      Decides-value _ (unfold cidr_match in (ground arith, ground arith))
  address_decides (fqdn_address f) a = Decides-value _ (fqdn_iff f a)

  addrs_decides :
      (ss : List (AddressObject Cidr)) (a : Cidr)
      → Decides (match_addrs lib dns_cache ss (some a)) (Any (λ s. ObjectCovers env s a) ss)
  unfolding match_addrs
  addrs_decides [] a = fails refl (λ b. b)
  addrs_decides (s ∷ ss) a = Decides-or_else (address_decides s a) (addrs_decides ss a)

  addrgrp_cx_decides :
      (ss : List (AddressObject Cidr)) (cx : Option HostCx)
      → Readable env cx
      → Decides (match_addrgrp_cx lib dns_cache ss cx) (AddrCovers env ss cx)
  unfolding match_addrgrp_cx
  addrgrp_cx_decides ss none h = absurd h
  addrgrp_cx_decides [] (some cx) h = holds refl (inl refl)
  addrgrp_cx_decides (s ∷ ss) (some cx) (a, e) = rw e (
      Decides-iff
        (
          (λ h. inr (a, refl, h)),
          λ t. elim t [
            | inl z ↦ absurd (cc)
            | inr q ↦ of_some (λ x. Any (λ s. ObjectCovers env s x) (s ∷ ss)) a q
          ],
        )
        (addrs_decides (s ∷ ss) a))

  addr-Any_decides :
      (ss : List (AddressObject Cidr)) (l : List (Option HostCx))
      → All (Readable env) l
      → Decides (match_addr_any lib dns_cache ss l) (Any (AddrCovers env ss) l)
  unfolding match_addr_any
  addr-Any_decides ss [] h = fails refl (λ b. b)
  addr-Any_decides ss (cx ∷ l) h =
      Decides-or_else (addrgrp_cx_decides ss cx h.0) (addr-Any_decides ss l h.1)

  pub addr_vecx_decides :
      (ss : List (AddressObject Cidr)) (l : List (Option HostCx))
      → All (Readable env) l
      → Decides (match_addrgrp_vecx lib dns_cache ss l) (SideCovers (AddrCovers env ss) l)
  unfolding match_addrgrp_vecx
  addr_vecx_decides ss [] h = holds refl (inl refl)
  addr_vecx_decides ss (cx ∷ l) h =
      Decides-iff (inr, λ t. elim t [ inl e ↦ absurd (cc) | inr a ↦ a ])
        (addr-Any_decides ss (cx ∷ l) h)

  pub Readable-ranges :
      (rs : List (ℤ × ℤ)) (l : List (Option HostCx))
      → All (Readable env) l
      → All (λ cx. Decides (match_rangegrp_cx safe_val rs cx) (RangeCovers env rs cx)) l
  Readable-ranges rs [] h = tt
  Readable-ranges rs (none ∷ l) h = absurd h.0
  Readable-ranges rs (some cx ∷ l) h =
      (rangegrp_cx_decides safe_val rs cx, Readable-ranges rs l h.1)
