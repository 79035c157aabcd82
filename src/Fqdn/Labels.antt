-- ===== src/Fqdn/Labels.antt =====
-- src/policy/inspectors.cpp: the labels of a name.
use smithproxy.Base.{
  ℕ, ◌≡◌, ◌≢◌, refl, sym, ap, ◌∙◌, Bool, true, false, inl, inr, List, [], ◌∷◌, ◌++◌, Text, ◌==◌,
  if-keeps, if◌then◌else◌, Bool-cases, ne→==_false, All,
}
use mathlib.Core.List.{append-nil, append_assoc}
use smithproxy.Base.Outcome.{value}
use smithproxy.Fqdn.{
  dot, split, split_loop, split_end, pop_back, append_back, drop_empty_back, reverse_onto,
}

-- What stands between the delimiters, empty fields included.
first_gets : ℕ → List Text → List Text
first_gets c [] = (c ∷ []) ∷ []
first_gets c (x ∷ xs) = (c ∷ x) ∷ xs

pub fields : ℕ → Text → List Text
unfolding first_gets
fields d [] = [] ∷ []
fields d (c ∷ cs) = if c == d then [] ∷ fields d cs else first_gets c (fields d cs)

pub non_empty : List Text → List Text
non_empty [] = []
non_empty ([] ∷ xs) = non_empty xs
non_empty ((c ∷ cs) ∷ xs) = (c ∷ cs) ∷ non_empty xs

-- The text before the first field belongs to it.
behind : Text → List Text → List Text
behind w [] = w ∷ []
behind w (x ∷ xs) = (w ++ x) ∷ xs

is_empty_text : Text → Bool
is_empty_text [] = true
is_empty_text (c ∷ cs) = false

behind-nil : (d : ℕ) (s : Text) → behind [] (fields d s) ≡ fields d s
unfolding behind fields first_gets
behind-nil d [] = refl
behind-nil d (c ∷ cs) =
    if-keeps (λ (xs : List Text). behind [] xs ≡ xs) (c == d) _ _ refl (kept c (fields d cs))
  where
    kept : (c : ℕ) (xs : List Text) → behind [] (first_gets c xs) ≡ first_gets c xs
    kept c [] = refl
    kept c (x ∷ xs) = refl

behind_char :
    (c : ℕ) (w : Text) (xs : List Text) → behind (w ++ c ∷ []) xs ≡ behind w (first_gets c xs)
unfolding behind first_gets
behind_char c w [] = refl
behind_char c w (x ∷ xs) = ap (λ (t : Text). t ∷ xs) (append_assoc w (c ∷ []) x)

-- The loop adds the fields that are not empty to the vector.
split_loop-fields :
    (d : ℕ) (r : List Text) (w s : Text)
    → split_loop d (w ∷ r) (is_empty_text w) s
      ≡ value (reverse_onto r (non_empty (behind w (fields d s))))
unfolding split_loop split_end pop_back reverse_onto non_empty behind fields is_empty_text
    drop_empty_back append_back
split_loop-fields d r [] [] = refl
split_loop-fields d r (c ∷ cs) [] = rw (append-nil (c ∷ cs)) refl
split_loop-fields d r w (c ∷ cs) = elim (Bool-cases (c == d)) [
  | inl e ↦ rw e (closed w (λ r'. split_loop-fields d r' [] cs))
  | inr e ↦
      rw (e, append_back)
        (rw (sym (behind_char c w (fields d cs)), sym (filled w))
          (split_loop-fields d r (w ++ c ∷ []) cs))
]
  where
    closed :
        (w : Text)
        → ((r' : List Text)
            → split_loop d ([] ∷ r') true cs
              ≡ value (reverse_onto r' (non_empty (behind [] (fields d cs)))))
        → split_loop d ([] ∷ drop_empty_back (w ∷ r)) true cs
          ≡ value (reverse_onto r (non_empty ((w ++ []) ∷ fields d cs)))
    closed [] h = h r ∙ ap (λ xs. value (reverse_onto r (non_empty xs))) (behind-nil d cs)
    closed (x ∷ xs) h = h ((x ∷ xs) ∷ r) ∙ rw (behind-nil d cs, append-nil xs) refl

    filled : (w : Text) → is_empty_text (w ++ c ∷ []) ≡ false
    filled [] = refl
    filled (x ∷ xs) = refl

-- `split` of a text that is not empty gives the texts between its delimiters, in their order,
-- without the empty ones; no pop or append of it is on an empty vector.
pub split-fields : (d c : ℕ) (s : Text) → split (c ∷ s) d ≡ value (non_empty (fields d (c ∷ s)))
unfolding split split_loop non_empty reverse_onto is_empty_text
split-fields d c s =
    split_loop-fields d [] [] (c ∷ s)
    ∙ ap (λ xs. value (reverse_onto [] (non_empty xs))) (behind-nil d (c ∷ s))

pub split-value : (d : ℕ) (t : Text) → t ≢ [] → split t d ≡ value (non_empty (fields d t))
split-value d [] n = absurd (n refl)
split-value d (c ∷ s) n = split-fields d c s

-- A label: not empty, and without a dot.
abbrev pub Label : Text → Type 0
Label t = (t ≢ []) × All (λ c. c ≢ dot) t

-- The labels with dots between them.
unfoldable pub join : List Text → Text
join [] = []
join (x ∷ []) = x
join (x ∷ y ∷ ys) = x ++ dot ∷ join (y ∷ ys)

fields-dot : (x s : Text) → All (λ c. c ≢ dot) x → fields dot (x ++ dot ∷ s) ≡ x ∷ fields dot s
unfolding fields first_gets
fields-dot [] s h = refl
fields-dot (c ∷ cs) s (n, h) = rw (ne→==_false c dot n, fields-dot cs s h) refl

fields-label : (x : Text) → All (λ c. c ≢ dot) x → fields dot x ≡ x ∷ []
unfolding fields first_gets
fields-label [] h = refl
fields-label (c ∷ cs) (n, h) = rw (ne→==_false c dot n, fields-label cs h) refl

fields-join : (x : Text) (xs : List Text) → All Label (x ∷ xs) → fields dot (join (x ∷ xs)) ≡ x ∷ xs
unfolding join
fields-join x [] ((_, h), _) = fields-label x h
fields-join x (y ∷ ys) ((_, h), hs) =
    fields-dot x (join (y ∷ ys)) h ∙ ap (λ (t : List Text). x ∷ t) (fields-join y ys hs)

non_empty-labels : (xs : List Text) → All Label xs → non_empty xs ≡ xs
unfolding non_empty
non_empty-labels [] h = refl
non_empty-labels ([] ∷ xs) ((n, _), h) = absurd (n refl)
non_empty-labels ((c ∷ cs) ∷ xs) (_, h) =
    ap (λ (t : List Text). (c ∷ cs) ∷ t) (non_empty-labels xs h)

-- `split` takes the dots between labels out again.
pub split-join :
    (x : Text) (xs : List Text) → All Label (x ∷ xs) → split (join (x ∷ xs)) dot ≡ value (x ∷ xs)
unfolding join
split-join x xs h =
    split-value dot (join (x ∷ xs)) (joined x xs h)
    ∙ ap (λ t. value (non_empty t)) (fields-join x xs h)
    ∙ ap value (non_empty-labels (x ∷ xs) h)
  where
    joined : (x : Text) (xs : List Text) → All Label (x ∷ xs) → join (x ∷ xs) ≢ []
    joined [] xs ((n, _), _) = absurd (n refl)
    joined (c ∷ cs) [] h = λ e. cc
    joined (c ∷ cs) (y ∷ ys) h = λ e. cc
