-- ===== src/Base/Views.antt =====
-- Reads inside a buffer, and views of its end.
use smithproxy.Base.{
  ℕ, zero, suc, ◌+◌, ◌-◌, ◌*◌, ◌≤◌, ◌<◌, ◌≡◌, refl, ap, ◌∙◌, List, [], ◌∷◌, some, length, take,
  drop, get_elem?, get_elem?-lt, length-drop, arith,
}
use smithproxy.Base.Outcome.{value}
use smithproxy.Base.Bytes.{Buffers, IsBuffers, byte_at, word_at, dword_at}

-- Numbers of two and four bytes that lie inside the buffer.
pub word_at-inside : (b : List ℕ) (i : ℕ) → i + 2 ≤ length b → (v : ℕ) × (word_at b i ≡ value v)
word_at-inside b i h =
    let (b0, e0) = get_elem?-lt b i (omega arith) in
    let (b1, e1) = get_elem?-lt b (i + 1) (omega arith) in
    (b0 + b1 * 256, rw (word_at, byte_at, e0, e1) refl)

pub dword_at-inside : (b : List ℕ) (i : ℕ) → i + 4 ≤ length b → (v : ℕ) × (dword_at b i ≡ value v)
dword_at-inside b i h =
    let (b0, e0) = get_elem?-lt b i (omega arith) in
    let (b1, e1) = get_elem?-lt b (i + 1) (omega arith) in
    let (b2, e2) = get_elem?-lt b (i + 2) (omega arith) in
    let (b3, e3) = get_elem?-lt b (i + 2 + 1) (omega arith) in
    (b0 + b1 * 256 + (b2 + b3 * 256) * 65536, rw (dword_at, word_at, byte_at, e0, e1, e2, e3) refl)

take_all : (xs : List ℕ) (n : ℕ) → length xs ≤ n → take n xs ≡ xs
take_all [] zero h = refl
take_all [] (suc n) h = refl
take_all (x ∷ xs) zero h = absurd (omega arith)
take_all (x ∷ xs) (suc n) h = ap (λ (t : List ℕ). x ∷ t) (take_all xs n (omega arith))

-- The view of the rest of a buffer.
pub view-rest :
    (B : Buffers) (laws : IsBuffers B) (b : List ℕ) (i : ℕ)
    → i ≤ length b
    → B.view b i (length b - i) ≡ drop i b
view-rest B laws b i h =
    laws.views b i (length b - i) (omega arith)
    ∙ take_all (drop i b) (length b - i) (omega (arith, length-drop i b))

pub get_elem?-drop : (b : List ℕ) (i j : ℕ) → get_elem? (drop i b) j ≡ get_elem? b (i + j)
get_elem?-drop b zero j = ap (get_elem? b) (omega arith)
get_elem?-drop [] (suc i) j = refl
get_elem?-drop (x ∷ xs) (suc i) j = get_elem?-drop xs i j ∙ ap (get_elem? (x ∷ xs)) (next i j)
  where
    next : (i j : ℕ) → suc (i + j) ≡ suc i + j
    next i j = omega arith

-- In the rest of a buffer in which every byte of 192 or more has one behind it, it has, too.
pub ends_in_rest :
    (b : List ℕ) (i : ℕ)
    → ((j c : ℕ) → get_elem? b j ≡ some c → 192 ≤ c → j + 1 < length b)
    → (j c : ℕ) → get_elem? (drop i b) j ≡ some c
    → 192 ≤ c
    → j + 1 < length (drop i b)
ends_in_rest b i ends j c e h =
    omega (arith, length-drop i b, ends (i + j) c (rw (← get_elem?-drop b i j) e) h)
