-- ===== src/Fqdn/Parts.antt =====
-- src/policy/inspectors.cpp: the two parts that split_fqdn_subdomain makes of a name.
use smithproxy.Base.{
  ℕ, suc, ◌+◌, ◌-◌, ◌≤◌, ◌≡◌, refl, ap, ◌∙◌, true, false, List, [], ◌∷◌, ◌++◌, Text, ltb, if_yes,
  if_no, Bool, leb, length, length-append, All, arith,
}
use mathlib.Core.List.{append-nil, append_assoc}
use smithproxy.Base.Outcome.{Outcome, value, ◌>>=◌}
use smithproxy.Fqdn.{dot, split_fqdn_subdomain, parts_of, parts_loop, dotted_part}
use smithproxy.Fqdn.Labels.{join, Label, split-join}

-- One label goes to the sub-domain, or to the domain.
to_sub :
    (n i : ℕ) (x : Text) (xs : List Text) (top sub : Text) (more : Bool)
    → i + 2 ≤ n
    → ltb i (n - 2) ≡ more
    → parts_loop n i (x ∷ xs) top sub ≡ parts_loop n (suc i) xs top (sub ++ (x ++ dotted_part more))
unfolding parts_loop
to_sub n i x xs top sub more h e = if_yes _ _ _ first ∙ rw e refl
  where
    first : leb i (n - 2) ≡ true
    first = ground arith

to_top :
    (n i : ℕ) (x : Text) (xs : List Text) (top sub : Text) (more : Bool)
    → 1 ≤ i
    → n ≤ i + 1
    → ltb i n ≡ more
    → parts_loop n i (x ∷ xs) top sub ≡ parts_loop n (suc i) xs (top ++ (x ++ dotted_part more)) sub
unfolding parts_loop
to_top n i x xs top sub more k h e = if_no _ _ _ second ∙ rw e refl
  where
    second : leb i (n - 2) ≡ false
    second = ground arith

-- The last two labels go to the domain.
parts-last :
    (n i : ℕ) (a b sub : Text)
    → 1 ≤ i
    → i + 1 ≡ n
    → parts_loop n i (a ∷ b ∷ []) [] sub ≡ (a ++ dot ∷ b, sub)
unfolding parts_loop dotted_part
parts-last n i a b sub k e =
    to_top n i a (b ∷ []) [] sub true k (omega arith) more
    ∙ to_top n (suc i) b [] (a ++ dot ∷ []) sub false (omega arith) (omega arith) last
    ∙ ap (λ (t : Text). (t, sub)) texts
  where
    more : ltb i n ≡ true
    more = ground arith

    last : ltb (suc i) n ≡ false
    last = ground arith

    texts : (a ++ dot ∷ []) ++ (b ++ []) ≡ a ++ dot ∷ b
    texts = ap (λ (t : Text). (a ++ dot ∷ []) ++ t) (append-nil b) ∙ append_assoc a (dot ∷ []) b

-- The labels before them go to the sub-domain.
parts-front :
    (n i : ℕ) (x : Text) (xs : List Text) (a b sub : Text)
    → 1 ≤ i
    → i + length xs + 2 ≡ n
    → parts_loop n i (x ∷ (xs ++ a ∷ b ∷ [])) [] sub ≡ (a ++ dot ∷ b, sub ++ join (x ∷ xs))
unfolding dotted_part join
parts-front n i x [] a b sub k e =
    to_sub n i x (a ∷ b ∷ []) [] sub false (omega arith) last
    ∙ parts-last n (suc i) a b (sub ++ (x ++ [])) (omega arith) (omega arith)
    ∙ ap (λ (t : Text). (a ++ dot ∷ b, sub ++ t)) (append-nil x)
  where
    last : ltb i (n - 2) ≡ false
    last = ground arith
parts-front n i x (y ∷ ys) a b sub k e =
    to_sub n i x (y ∷ (ys ++ a ∷ b ∷ [])) [] sub true (omega arith) more
    ∙ parts-front n (suc i) y ys a b (sub ++ (x ++ dot ∷ [])) (omega arith) (omega arith)
    ∙ ap (λ (t : Text). (a ++ dot ∷ b, t)) texts
  where
    more : ltb i (n - 2) ≡ true
    more = ground arith

    texts : (sub ++ (x ++ dot ∷ [])) ++ join (y ∷ ys) ≡ sub ++ (x ++ dot ∷ join (y ∷ ys))
    texts =
        append_assoc sub (x ++ dot ∷ []) (join (y ∷ ys))
        ∙ ap (λ (t : Text). sub ++ t) (append_assoc x (dot ∷ []) (join (y ∷ ys)))

-- split_fqdn_subdomain makes of a name of three labels or more the last two labels and the labels
-- before them, both with dots between their labels.
pub split_fqdn_subdomain-join :
    (x : Text) (xs : List Text) (a b : Text)
    → All Label (x ∷ (xs ++ a ∷ b ∷ []))
    → split_fqdn_subdomain (join (x ∷ (xs ++ a ∷ b ∷ [])))
      ≡ value (join (a ∷ b ∷ []), join (x ∷ xs))
unfolding split_fqdn_subdomain parts_of join
split_fqdn_subdomain-join x xs a b h =
    ap (λ (m : Outcome (List Text)). m >>= λ labels. value (parts_of labels))
      (split-join x (xs ++ a ∷ b ∷ []) h)
    ∙ ap value
        (if_yes _ _ _ many ∙ parts-front _ 1 x xs a b [] (omega arith) (omega (arith, count)))
  where
    count : length (xs ++ a ∷ b ∷ []) ≡ length xs + 2
    count = length-append xs (a ∷ b ∷ [])

    many : ltb 2 (suc (length (xs ++ a ∷ b ∷ []))) ≡ true
    many = ground (arith, count)
