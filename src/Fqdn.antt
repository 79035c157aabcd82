-- ===== src/Fqdn.antt =====
-- src/policy/inspectors.cpp: the inspectors' helpers on names.
pub mod Labels
pub mod Parts
use smithproxy.Base.{
  ℕ, suc, ◌+◌, ◌-◌, Bool, true, false, List, [], ◌∷◌, ◌++◌, Text, ◌==◌, ltb, leb, if◌then◌else◌,
  length, take,
}
use smithproxy.Base.Outcome.{Outcome, value, undefined, ◌>>=◌}

abbrev pub dot : ℕ
dot = 46

-- The characters kept so far, and whether the last of them is a dot or there is none yet. The
-- counter of the source is 0 or 1.
unfoldable pub dots_loop : Text → Text → ℕ → Text × ℕ
dots_loop [] norm dot_mark = (norm, dot_mark)
dots_loop (c ∷ cs) norm dot_mark =
    if c == dot
    then if ltb 0 dot_mark
      then dots_loop cs norm dot_mark
      else dots_loop cs (norm ++ c ∷ []) (dot_mark + 1)
    else dots_loop cs (norm ++ c ∷ []) 0

-- On an empty text the length wraps around, and `substr` gives all of it.
unfoldable pub drop_marks : Text × ℕ → Text
drop_marks (norm, dot_mark) = if ltb 0 dot_mark then take (length norm - dot_mark) norm else norm

unfoldable pub remove_redundant_dots : Text → Text
remove_redundant_dots orig = drop_marks (dots_loop orig [] 1)

-- The vector of `split` has its last element first.
unfoldable pub drop_empty_back : List Text → List Text
drop_empty_back [] = []
drop_empty_back ([] ∷ ret) = ret
drop_empty_back ((c ∷ cs) ∷ ret) = (c ∷ cs) ∷ ret

unfoldable pub append_back : List Text → ℕ → Outcome (List Text)
append_back [] c = undefined
append_back (x ∷ ret) c = value ((x ++ c ∷ []) ∷ ret)

unfoldable pub pop_back : List Text → Outcome (List Text)
pop_back [] = undefined
pop_back (x ∷ ret) = value ret

unfoldable pub reverse_onto : List Text → List Text → List Text
reverse_onto [] acc = acc
reverse_onto (x ∷ xs) acc = reverse_onto xs (x ∷ acc)

unfoldable pub split_end : List Text → Bool → Outcome (List Text)
split_end ret true = do ret ← pop_back ret; value (reverse_onto ret [])
split_end ret false = value (reverse_onto ret [])

unfoldable pub split_loop : ℕ → List Text → Bool → Text → Outcome (List Text)
split_loop delimiter ret empty_back [] = split_end ret empty_back
split_loop delimiter ret empty_back (c ∷ cs) =
    if c == delimiter
    then split_loop delimiter ([] ∷ drop_empty_back ret) true cs
    else (do ret ← append_back ret c; split_loop delimiter ret false cs)

unfoldable pub split : Text → ℕ → Outcome (List Text)
split [] delimiter = split_loop delimiter [] true []
split (c ∷ cs) delimiter = split_loop delimiter ([] ∷ []) true (c ∷ cs)

-- A dot behind every label but the last of its part. `n` is the number of labels.
unfoldable pub dotted_part : Bool → Text
dotted_part true = dot ∷ []
dotted_part false = []

unfoldable pub parts_loop : ℕ → ℕ → List Text → Text → Text → Text × Text
parts_loop n i [] topdom subdom = (topdom, subdom)
parts_loop n i (x ∷ xs) topdom subdom =
    if leb i (n - 2)
    then parts_loop n (suc i) xs topdom (subdom ++ (x ++ dotted_part (ltb i (n - 2))))
    else parts_loop n (suc i) xs (topdom ++ (x ++ dotted_part (ltb i n))) subdom

unfoldable pub parts_of : List Text → Text × Text
parts_of labels =
    if ltb 2 (length labels) then parts_loop (length labels) 1 labels [] [] else ([], [])

unfoldable pub split_fqdn_subdomain : Text → Outcome (Text × Text)
split_fqdn_subdomain fqdn = do labels ← split fqdn dot; value (parts_of labels)
