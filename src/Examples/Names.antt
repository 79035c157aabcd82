-- ===== src/Examples/Names.antt =====
-- A DNS packet with a name and a pointer to it.
use smithproxy.Base.{
  ℕ, suc, zero, ◌≡◌, ◌≤◌, ◌<◌, ◌+◌, List, [], ◌∷◌, some, Text, length, get_elem?, arith,
}
use smithproxy.Base.Outcome.{value}
use smithproxy.Fqdn.{split, split_fqdn_subdomain}
use smithproxy.Fqdn.Labels.{non_empty, fields, split-fields, Label, join}
use smithproxy.Fqdn.Parts.{split_fqdn_subdomain-join}
use smithproxy.Dns.Names.{construct_qname, construct_qname-returns}

-- "ab", its end, and a pointer to the start.
abbrev packet : List ℕ
packet = 2 ∷ 97 ∷ 98 ∷ 0 ∷ 192 ∷ 0 ∷ []

packet_ends : (j c : ℕ) → get_elem? packet j ≡ some c → 192 ≤ c → j + 1 < length packet
packet_ends zero c e h = omega arith
packet_ends (suc zero) c e h = omega arith
packet_ends (suc (suc zero)) c e h = omega arith
packet_ends (suc (suc (suc zero))) c e h = omega arith
packet_ends (suc (suc (suc (suc zero)))) c e h = omega arith
packet_ends (suc (suc (suc (suc (suc zero))))) c e h = ground arith
packet_ends (suc (suc (suc (suc (suc (suc j)))))) c e h = absurd (cc)

construct_qname-returns_example : (t : Text) × (construct_qname packet 16 4 ≡ value t)
construct_qname-returns_example = construct_qname-returns packet 16 4 packet_ends

-- "a..b" and its labels.
split-fields_example :
    split (97 ∷ 46 ∷ 46 ∷ 98 ∷ []) 46 ≡ value (non_empty (fields 46 (97 ∷ 46 ∷ 46 ∷ 98 ∷ [])))
split-fields_example = split-fields 46 97 (46 ∷ 46 ∷ 98 ∷ [])

no_dot : (c : ℕ) → c < 46 → Label (c ∷ [])
no_dot c h = (λ e. cc, (λ e. omega (arith, e), tt))

-- A host with the one-letter labels 1, 2 and 3.
split_fqdn_subdomain-join_example :
    split_fqdn_subdomain (join ((1 ∷ []) ∷ (2 ∷ []) ∷ (3 ∷ []) ∷ []))
    ≡ value (join ((2 ∷ []) ∷ (3 ∷ []) ∷ []), join ((1 ∷ []) ∷ []))
split_fqdn_subdomain-join_example =
    split_fqdn_subdomain-join (1 ∷ []) [] (2 ∷ []) (3 ∷ [])
      (no_dot 1 (omega arith), (no_dot 2 (omega arith), (no_dot 3 (omega arith), tt)))
