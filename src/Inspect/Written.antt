-- ===== src/Inspect/Written.antt =====
-- src/inspect/dnsinspector.cpp: what a write into a reply changes.
use smithproxy.Base.{
  ℕ, zero, suc, ◌+◌, ◌-◌, ◌*◌, ◌/◌, ◌%◌, ◌≤◌, ◌<◌, ◌≡◌, ◌⊎◌, refl, ap, ◌∙◌, inl, inr, true, List,
  [], ◌∷◌, ◌++◌, some, length, length-append, length-take, length-drop, take, drop, get_elem?,
  get_elem?-append_left, get_elem?-append_right, if_yes, leb, arith,
}
use smithproxy.Base.Outcome.{value}
use smithproxy.Base.Bytes.{byte_at, word_at, dword_at, bytes16, bytes32}
use smithproxy.Base.Views.{get_elem?-drop}
use smithproxy.Inspect.Verdict.{raw_write}

get_elem?-take : (b : List ℕ) (i j : ℕ) → j < i → get_elem? (take i b) j ≡ get_elem? b j
get_elem?-take b zero j h = absurd (omega arith)
get_elem?-take [] (suc i) j h = refl
get_elem?-take (x ∷ xs) (suc i) zero h = refl
get_elem?-take (x ∷ xs) (suc i) (suc j) h = get_elem?-take xs i j (omega arith)

-- The buffer after a write.
abbrev write : List ℕ → ℕ → List ℕ → List ℕ
write b i xs = take i b ++ (xs ++ drop (i + length xs) b)

module _ (b : List ℕ) (i : ℕ) (xs : List ℕ) (inside : i + length xs ≤ length b) where
  taken : length (take i b) ≡ i
  taken = omega (arith, length-take i b)

  raw_write-inside : raw_write b i xs ≡ value (write b i xs)
  unfolding raw_write
  raw_write-inside = if_yes _ _ _ fits
    where
      fits : leb (i + length xs) (length b) ≡ true
      fits = ground arith

  length-write : length (write b i xs) ≡ length b
  length-write = omega (
    arith,
    taken,
    length-append (take i b) (xs ++ drop (i + length xs) b),
    length-append xs (drop (i + length xs) b),
    length-drop (i + length xs) b,
  )

  -- Behind the start of the write, at `k` from there.
  from_start :
      (k : ℕ) → get_elem? (write b i xs) (i + k) ≡ get_elem? (xs ++ drop (i + length xs) b) k
  from_start k =
      ap (get_elem? (write b i xs)) (omega (arith, taken))
      ∙ get_elem?-append_right (take i b) (xs ++ drop (i + length xs) b) k

  get_elem?-write_in : (k : ℕ) → k < length xs → get_elem? (write b i xs) (i + k) ≡ get_elem? xs k
  get_elem?-write_in k h = from_start k ∙ get_elem?-append_left xs (drop (i + length xs) b) k h

  get_elem?-write_out :
      (j : ℕ) → (j < i) ⊎ (i + length xs ≤ j) → get_elem? (write b i xs) j ≡ get_elem? b j
  get_elem?-write_out j (inl h) =
      get_elem?-append_left (take i b) (xs ++ drop (i + length xs) b) j (omega (arith, taken))
      ∙ get_elem?-take b i j h
  get_elem?-write_out j (inr h) =
      let k = j - (i + length xs) in
      ap (get_elem? (write b i xs)) (omega arith)
      ∙ from_start (length xs + k)
      ∙ get_elem?-append_right xs (drop (i + length xs) b) k
      ∙ get_elem?-drop b (i + length xs) k
      ∙ ap (get_elem? b) (omega arith)

-- A write inside a buffer: its length stays, the bytes written are there, the others stay.
abbrev pub Wrote : List ℕ → ℕ → List ℕ → List ℕ → Type 0
Wrote b i xs c =
    (length c ≡ length b)
    × ((k : ℕ) → k < length xs → get_elem? c (i + k) ≡ get_elem? xs k)
    × ((j : ℕ) → (j < i) ⊎ (i + length xs ≤ j) → get_elem? c j ≡ get_elem? b j)

pub raw_write-Wrote :
    (b : List ℕ) (i : ℕ) (xs : List ℕ)
    → i + length xs ≤ length b
    → (c : List ℕ) × (raw_write b i xs ≡ value c) × Wrote b i xs c
raw_write-Wrote b i xs h = (
  write b i xs,
  raw_write-inside b i xs h,
  (length-write b i xs h, get_elem?-write_in b i xs h, get_elem?-write_out b i xs h),
)

-- A number is made of the bytes at its position alone.
pub dword_at-same :
    (b c : List ℕ) (i : ℕ)
    → ((k : ℕ) → k < 4 → get_elem? c (i + k) ≡ get_elem? b (i + k))
    → dword_at c i ≡ dword_at b i
dword_at-same b c i h =
    rw (dword_at, word_at, byte_at, first, h 1 (omega arith), h 2 (omega arith), fourth) refl
  where
    first : get_elem? c i ≡ get_elem? b i
    first = ap (get_elem? c) (omega arith) ∙ h 0 (omega arith) ∙ ap (get_elem? b) (omega arith)

    fourth : get_elem? c (i + 2 + 1) ≡ get_elem? b (i + 2 + 1)
    fourth = ap (get_elem? c) (omega arith) ∙ h 3 (omega arith) ∙ ap (get_elem? b) (omega arith)

-- A number of 32 bits that was written is read back.
pub dword_at-bytes32 :
    (c : List ℕ) (i v : ℕ)
    → v < 4294967296
    → ((k : ℕ) → k < 4 → get_elem? c (i + k) ≡ get_elem? (bytes32 v) k)
    → dword_at c i ≡ value v
dword_at-bytes32 c i v small h =
    rw (dword_at, word_at, byte_at, first, h 1 (omega arith), h 2 (omega arith), fourth)
      (ap value whole)
  where
    first : get_elem? c i ≡ some (v % 256)
    first = ap (get_elem? c) (omega arith) ∙ h 0 (omega arith)

    fourth : get_elem? c (i + 2 + 1) ≡ some (v / 16777216 % 256)
    fourth = ap (get_elem? c) (omega arith) ∙ h 3 (omega arith)

    whole : v % 256 + v / 256 % 256 * 256 + (v / 65536 % 256 + v / 16777216 % 256 * 256) * 65536 ≡ v
    whole = omega arith

pub word_at-bytes16 :
    (c : List ℕ) (v : ℕ)
    → v < 65536
    → ((k : ℕ) → k < 2 → get_elem? c (0 + k) ≡ get_elem? (bytes16 v) k)
    → word_at c 0 ≡ value v
word_at-bytes16 c v small h = rw (word_at, byte_at, first, second) (ap value whole)
  where
    first : get_elem? c 0 ≡ some (v % 256)
    first = h 0 (omega arith)

    second : get_elem? c (0 + 1) ≡ some (v / 256 % 256)
    second = h 1 (omega arith)

    whole : v % 256 + v / 256 % 256 * 256 ≡ v
    whole = omega arith
