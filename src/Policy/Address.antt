-- ===== src/Policy/Address.antt =====
-- src/policy/addrobj.hpp and addrobj.cpp: address objects and their match.
use smithproxy.Base.{
  ℕ, Bool, true, false, List, [], ◌∷◌, ◌++◌, Option, none, some, Text, ◌==◌, if◌then◌else◌,
}
use smithproxy.Base.Int.{pos, leb_ℤ}
use smithproxy.Base.Outcome.{Outcome, value, undefined}
use smithproxy.Cidr.{CidrLib}
use smithproxy.Dns.{Packet}
use smithproxy.Dns.Response.{ascii, get_a_answers}

-- The subclasses of AddressObject.
pub data AddressObject (Cidr : Type 0) : Type 0 where
  cidr_address : Option Cidr → AddressObject Cidr
  fqdn_address : Text → AddressObject Cidr

-- `dns_cache` is the shared cache of responses (socle's ptr_cache), as a lookup by key.
module _ (lib : CidrLib) (dns_cache : Text → Option Packet) where
  open lib use {Cidr, cidr_contains, proto, cidr_ipv4, cidr_ipv6}

  -- CidrAddress::match
  unfoldable pub cidr_match : Option Cidr → Option Cidr → Bool
  cidr_match c other = leb_ℤ (pos 0) (cidr_contains c other)

  unfoldable pub find_dns_response : Text → ℕ → Option Packet
  find_dns_response fqdn cidr_type =
      if cidr_type == cidr_ipv4
      then dns_cache (ascii "A:" ++ fqdn)
      else if cidr_type == cidr_ipv6
      then dns_cache (ascii "AAAA:" ++ fqdn)
      else none

  -- The loop over the cached addresses, which stops at the first match.
  unfoldable pub match_any_ip : List (Option Cidr) → Option Cidr → Bool
  match_any_ip [] to_match = false
  match_any_ip (ip ∷ ips) to_match =
      if cidr_match ip to_match then true else match_any_ip ips to_match

  -- FqdnAddress::match
  unfoldable pub fqdn_match : Text → Cidr → Bool
  fqdn_match fqdn to_match = elim (find_dns_response fqdn (proto to_match)) [
    | none ↦ false
    | some r ↦ match_any_ip (get_a_answers lib r) (some to_match)
  ]

  -- The virtual `match`. The FQDN object reads `to_match->proto` with no null check.
  unfoldable pub address_match : AddressObject Cidr → Option Cidr → Outcome Bool
  address_match (cidr_address c) to_match = value (cidr_match c to_match)
  address_match (fqdn_address f) none = undefined
  address_match (fqdn_address f) (some c) = value (fqdn_match f c)
