-- ===== src/Policy/Ports.antt =====
-- The ports and the protocols of a rule of src/policy/policy.cpp decide what they cover.
use smithproxy.Base.{
  ℕ, ◌≡◌, refl, ◌↔◌, ◌⊎◌, inl, inr, true, List, [], ◌∷◌, Option, none, some, Text, arith, ◌==◌, All,
  Any, Bool-cases, if_same, ne→==_false, ==_iff,
}
use smithproxy.Base.Int.{ℤ, pos, ◌≤ℤ◌, ltb_ℤ}
use smithproxy.Base.Decides.{
  Decides, holds, fails, Decides-value, Decides-iff, Decides-and_then, Decides-or_else,
}
use smithproxy.Policy.Rule.{
  HostCx, sock_2_net, match_com, match_proto_cx, match_proto_all, match_proto_vecx, in_range,
  match_ranges, match_rangegrp_cx, match_range_any, match_rangegrp_vecx,
}
use smithproxy.Policy.Match.{PolicyEnv, match_proto_lr}
use smithproxy.Policy.Admission.{PortCovers, HasProto, KnownProto, SideCovers}

match_ranges_iff :
    (p : ℤ) (rs : List (ℤ × ℤ)) → (match_ranges p rs ≡ true) ↔ Any (λ r. (r.0 ≤ℤ p) × (p ≤ℤ r.1)) rs
unfolding match_ranges in_range
match_ranges_iff p [] = ((λ e. cc), λ b. absurd b)
match_ranges_iff p ((a, b) ∷ rs) =
    (ground (arith, (match_ranges_iff p rs).0), ground (arith, (match_ranges_iff p rs).1))

PortCovers-cons :
    (r : ℤ × ℤ) (rs : List (ℤ × ℤ)) (p : ℤ)
    → ((pos 0 ≤ℤ p) × Any (λ r. (r.0 ≤ℤ p) × (p ≤ℤ r.1)) (r ∷ rs)) ↔ PortCovers (r ∷ rs) p
PortCovers-cons r rs p = (inr, λ t. elim t [ inl e ↦ absurd (cc) | inr h ↦ h ])

module _ (safe_val : Text → ℤ) where
  pub rangegrp_cx_decides :
      (rs : List (ℤ × ℤ)) (cx : HostCx)
      → Decides (match_rangegrp_cx safe_val rs (some cx)) (PortCovers rs (safe_val cx.port))
  unfolding match_rangegrp_cx
  rangegrp_cx_decides [] cx = holds refl (inl refl)
  rangegrp_cx_decides (r ∷ rs) cx =
      let p = safe_val cx.port in
      Decides-iff (PortCovers-cons r rs p) (elim (Bool-cases (ltb_ℤ p (pos 0))) [
        | inl low ↦ rw low (fails refl (λ t. ground (arith, t.0)))
        | inr high ↦ rw high (
            Decides-iff ((λ h. (ground arith, h)), (λ t. t.1))
              (Decides-value _ (match_ranges_iff p (r ∷ rs))))
      ])

  range-Any_decides :
      (P : Option HostCx → Type 0) (rs : List (ℤ × ℤ)) (l : List (Option HostCx))
      → All (λ cx. Decides (match_rangegrp_cx safe_val rs cx) (P cx)) l
      → Decides (match_range_any safe_val rs l) (Any P l)
  unfolding match_range_any
  range-Any_decides P rs [] h = fails refl (λ b. b)
  range-Any_decides P rs (cx ∷ l) h = Decides-or_else h.0 (range-Any_decides P rs l h.1)

  pub range_vecx_decides :
      (P : Option HostCx → Type 0) (rs : List (ℤ × ℤ)) (l : List (Option HostCx))
      → All (λ cx. Decides (match_rangegrp_cx safe_val rs cx) (P cx)) l
      → Decides (match_rangegrp_vecx safe_val rs l) (SideCovers P l)
  unfolding match_rangegrp_vecx
  range_vecx_decides P rs [] h = holds refl (inl refl)
  range_vecx_decides P rs (cx ∷ l) h =
      Decides-iff (inr, λ t. elim t [ inl e ↦ absurd (cc) | inr a ↦ a ])
        (range-Any_decides P rs (cx ∷ l) h)

-- Protocols.
proto_cx_decides :
    (p : ℕ) (cx : Option HostCx) → KnownProto cx → Decides (match_proto_cx p cx) (HasProto p cx)
unfolding match_proto_cx match_com
proto_cx_decides p none h = absurd h
proto_cx_decides p (some cx) (t, e, k) =
    rw (e, match_com)
      (Decides-iff ((λ h. (t, refl, h)), λ q. ground (arith, q.1, q.2))
        (rw (ne→==_false _ _ k) (Decides-value _ (==_iff p (sock_2_net t)))))

proto-All_decides :
    (p : ℕ) (l : List (Option HostCx))
    → All KnownProto l
    → Decides (match_proto_all p l) (All (HasProto p) l)
unfolding match_proto_all
proto-All_decides p [] h = holds refl tt
proto-All_decides p (cx ∷ l) h =
    Decides-and_then (proto_cx_decides p cx h.0) (proto-All_decides p l h.1)

pub proto_lr_decides :
    (env : PolicyEnv) (p : ℕ) (l : List (Option HostCx))
    → All KnownProto l
    → Decides (match_proto_lr env p l) ((p ≡ 0) ⊎ All (HasProto p) l)
unfolding match_proto_lr match_proto_vecx match_proto_all
proto_lr_decides env p [] h = rw (if_same) (holds refl (inr tt))
proto_lr_decides env p (cx ∷ l) h = elim (Bool-cases (p == 0)) [
  | inl any ↦ rw any (holds refl (inl (ground arith)))
  | inr one ↦ rw one (
      Decides-iff (inr, λ t. elim t [ inl e ↦ absurd (ground arith) | inr a ↦ a ])
        (proto-All_decides p (cx ∷ l) h))
]
