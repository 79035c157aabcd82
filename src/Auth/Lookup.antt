-- ===== src/Auth/Lookup.antt =====
-- The map of identities of src/policy/authfactory4.cpp and authfactory6.cpp: its laws.
use smithproxy.Base.{
  Bool, true, false, [], ◌∷◌, none, some, Text, same_text, same_text_iff, same_text_refl, ◌≡◌, refl,
  sym, ap, ◌∙◌, if◌then◌else◌, if_same, if-keeps, Bool-cases, not_both, inl, inr,
}
use smithproxy.Auth.{IdentityInfo}
use smithproxy.Auth.Tables.{IpMap, find, insert, erase}

-- Every key is there once.
abbrev pub IsMap : IpMap → Type 0
IsMap [] = Unit
IsMap ((k, id) ∷ m) = (find k m ≡ none) × IsMap m

pub same_text_sym : (a b : Text) → same_text a b ≡ true → same_text b a ≡ true
same_text_sym a b e = (same_text_iff b a).1 (sym ((same_text_iff a b).0 e))

-- Of two tests of one text, where the first holds.
pub same_text-eq : (a b j : Text) → same_text a b ≡ true → same_text a j ≡ same_text b j
same_text-eq a b j e = ap (λ (t : Text). same_text t j) ((same_text_iff a b).0 e)

-- Two keys that differ are not both the one looked for.
pub swap_tests :
    {A : Type 0} (b c : Bool) (x y z : A)
    → (b ≡ true → c ≡ true → ⊥)
    → (if b then x else if c then y else z) ≡ (if c then y else if b then x else z)
swap_tests true true x y z h = absurd (h refl refl)
swap_tests true false x y z h = refl
swap_tests false true x y z h = refl
swap_tests false false x y z h = refl

pub if_twice :
    {A : Type 0} (b : Bool) (x y z : A)
    → (if b then x else z) ≡ (if b then x else if b then y else z)
if_twice true x y z = refl
if_twice false x y z = refl

not_same : (i k j : Text) → same_text i k ≡ false → same_text i j ≡ true → same_text k j ≡ true → ⊥
not_same i k j e a b =
    not_both ((same_text_iff i k).1 ((same_text_iff i j).0 a ∙ sym ((same_text_iff k j).0 b))) e

pub find-insert :
    (k j : Text) (v : IdentityInfo) (m : IpMap)
    → find j (insert k v m) ≡ (if same_text k j then some v else find j m)
unfolding find insert
find-insert k j v [] = refl
find-insert k j v ((i, w) ∷ m) = elim (Bool-cases (same_text i k)) [
  | inl e ↦ rw (e, same_text-eq i k j e) (if_twice (same_text k j) (some v) (some w) (find j m))
  | inr e ↦
      rw (e, find-insert k j v m)
        (swap_tests (same_text i j) (same_text k j) (some w) (some v) (find j m) (not_same i k j e))
]

pub find-insert_self : (k : Text) (v : IdentityInfo) (m : IpMap) → find k (insert k v m) ≡ some v
find-insert_self k v m = rw (find-insert k k v m, same_text_refl k) refl

-- What is erased was there once.
gone :
    (k j : Text) (w : IdentityInfo) (m : IpMap)
    → find k m ≡ none
    → find j m ≡ (if same_text k j then none else if same_text k j then some w else find j m)
gone k j w m h = elim (Bool-cases (same_text k j)) [
  | inl e ↦ rw e (ap (λ (t : Text). find t m) (sym ((same_text_iff k j).0 e)) ∙ h)
  | inr e ↦ rw e refl
]

pub find-erase :
    (k j : Text) (m : IpMap)
    → IsMap m
    → find j (erase k m) ≡ (if same_text k j then none else find j m)
unfolding find erase
find-erase k j [] h = sym (if_same (same_text k j) none)
find-erase k j ((i, w) ∷ m) h = elim (Bool-cases (same_text i k)) [
  | inl e ↦
      rw (e, same_text-eq i k j e)
        (gone k j w m (ap (λ (t : Text). find t m) (sym ((same_text_iff i k).0 e)) ∙ h.0))
  | inr e ↦
      rw (e, find-erase k j m h.1)
        (swap_tests (same_text i j) (same_text k j) (some w) none (find j m) (not_same i k j e))
]

pub insert-IsMap : (k : Text) (v : IdentityInfo) (m : IpMap) → IsMap m → IsMap (insert k v m)
unfolding insert find
insert-IsMap k v [] h = (refl, tt)
insert-IsMap k v ((i, w) ∷ m) h = elim (Bool-cases (same_text i k)) [
  | inl e ↦ rw e h
  | inr e ↦ rw e (find-insert k i v m ∙ rw (other e) h.0, insert-IsMap k v m h.1)
]
  where
    other : same_text i k ≡ false → same_text k i ≡ false
    other e = elim (Bool-cases (same_text k i)) [
      | inl f ↦ not_both (same_text_sym k i f) e
      | inr f ↦ f
    ]

pub erase-IsMap : (k : Text) (m : IpMap) → IsMap m → IsMap (erase k m)
unfolding erase
erase-IsMap k [] h = tt
erase-IsMap k ((i, w) ∷ m) h =
    if-keeps IsMap (same_text i k) m ((i, w) ∷ erase k m) h.1
      (find-erase k i m h.1 ∙ rw h.0 (if_same (same_text k i) none), erase-IsMap k m h.1)
