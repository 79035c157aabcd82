-- ===== src/Auth/Groups.antt =====
-- IdentityInfoType::update and the constructor of a row, both of src/shm/shmauth.hpp.
use mathlib.Core.Path.{subst}
use mathlib.Core.List.{append_assoc, append-nil}
use smithproxy.Base.{
  ℕ, ◌<◌, ◌≡◌, ◌≢◌, refl, sym, ap, ◌∙◌, List, [], ◌∷◌, ◌++◌, Text, ne→==_false, All, length, arith,
}
use smithproxy.Auth.{plus, at_plus, groups_loop}

-- The texts with a plus between each and the next.
abbrev pub join : List Text → Text
join [] = []
join (g ∷ []) = g
join (g ∷ h ∷ gs) = g ++ plus ∷ join (h ∷ gs)

abbrev pub PlusFree : Text → Type 0
PlusFree g = All (λ c. c ≢ plus) g

-- Groups as they are written: not empty, and without a plus.
abbrev pub Named : Text → Type 0
Named g = (0 < length g) × PlusFree g

at_plus-full :
    (piece rest : Text) (gs : List Text) → 0 < length piece → at_plus piece rest gs ≡ piece ∷ gs
unfolding at_plus
at_plus-full [] rest gs h = absurd (omega arith)
at_plus-full (x ∷ xs) rest gs h = refl

-- One more character of a piece.
longer : (piece : Text) (c : ℕ) (cs : Text) → (piece ++ c ∷ []) ++ cs ≡ piece ++ c ∷ cs
longer piece c cs = append_assoc piece (c ∷ []) cs

loop_end : (piece g : Text) → PlusFree g → groups_loop piece g ≡ (piece ++ g) ∷ []
unfolding groups_loop
loop_end piece [] f = ap (λ (t : Text). t ∷ []) (sym (append-nil piece))
loop_end piece (c ∷ cs) f =
    rw (ne→==_false c plus f.0)
      (loop_end (piece ++ c ∷ []) cs f.1 ∙ ap (λ (t : Text). t ∷ []) (longer piece c cs))

loop_piece :
    (piece g rest : Text)
    → PlusFree g
    → 0 < length (piece ++ g)
    → groups_loop piece (g ++ plus ∷ rest) ≡ (piece ++ g) ∷ groups_loop [] rest
unfolding groups_loop
loop_piece piece [] rest f h =
    at_plus-full piece (plus ∷ rest) (groups_loop [] rest)
      (subst (λ (t : Text). 0 < length t) (append-nil piece) h)
    ∙ ap (λ (t : Text). t ∷ groups_loop [] rest) (sym (append-nil piece))
loop_piece piece (c ∷ cs) rest f h = rw (ne→==_false c plus f.0) (
    loop_piece (piece ++ c ∷ []) cs rest f.1
      (subst (λ (t : Text). 0 < length t) (sym (longer piece c cs)) h)
    ∙ ap (λ (t : Text). t ∷ groups_loop [] rest) (longer piece c cs))

-- The groups of an identity, written with pluses between them, are split into these groups, if
-- there is at least one, and each has a character and no plus.
pub groups_loop-join :
    (g : Text) (gs : List Text) → All Named (g ∷ gs) → groups_loop [] (join (g ∷ gs)) ≡ g ∷ gs
groups_loop-join g [] h = loop_end [] g h.0.1
groups_loop-join g (x ∷ gs) h =
    loop_piece [] g (join (x ∷ gs)) h.0.1 h.0.0 ∙ ap (◌∷◌ g) (groups_loop-join x gs h.1)

-- Groups with a plus behind each, and a text behind them.
abbrev pub written : List Text → Text → Text
written [] rest = rest
written (g ∷ gs) rest = g ++ plus ∷ written gs rest

-- A group without a character ends the list: all that follows the plus before it, the next plus
-- included, is taken as one group.
pub groups_loop-empty_group :
    (gs : List Text) (rest : Text)
    → All Named gs
    → groups_loop [] (written gs (plus ∷ rest)) ≡ gs ++ (plus ∷ rest) ∷ []
unfolding groups_loop at_plus
groups_loop-empty_group [] rest h = refl
groups_loop-empty_group (g ∷ gs) rest h =
    loop_piece [] g (written gs (plus ∷ rest)) h.0.1 h.0.0
    ∙ ap (◌∷◌ g) (groups_loop-empty_group gs rest h.1)
