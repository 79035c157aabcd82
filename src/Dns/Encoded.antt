-- ===== src/Dns/Encoded.antt =====
-- src/inspect/dns.cpp: the bytes of a request that generate_dns_request makes.
use smithproxy.Base.{
  ℕ, zero, suc, ◌+◌, ◌/◌, ◌%◌, ◌<◌, ◌≡◌, ◌≢◌, refl, sym, ap, ◌∙◌, List, [], ◌∷◌, ◌++◌, Text, ◌==◌,
  if_no, ne→==_false, length, length-append, set, All, arith,
}
use mathlib.Core.List.{append-nil, append_assoc}
use smithproxy.Base.Bytes.{swap16, bytes16}
use smithproxy.Fqdn.Labels.{join, Label}
use smithproxy.Dns.Request.{
  request_overhead, request_header, name_loop, last_piece, request_trailer, generate_dns_request,
}

-- The labels, each with its length before it.
unfoldable pub encode : List Text → List ℕ
encode [] = []
encode (x ∷ xs) = length x ∷ (x ++ encode xs)

set_behind : (q ys : List ℕ) (k v : ℕ) → set (q ++ ys) (length q + k) v ≡ q ++ set ys k v
set_behind [] ys k v = ap (λ (j : ℕ). set ys j v) (omega arith)
set_behind (x ∷ q) ys k v =
    ap (λ (j : ℕ). set (x ∷ (q ++ ys)) j v) (next (length q) k)
    ∙ ap (λ (t : List ℕ). x ∷ t) (set_behind q ys k v)
  where
    next : (n k : ℕ) → suc n + k ≡ suc (n + k)
    next n k = omega arith

-- A write at the end of a part.
set_at :
    (q : List ℕ) (y : ℕ) (ys : List ℕ) (i v : ℕ)
    → i ≡ length q
    → set (q ++ y ∷ ys) i v ≡ q ++ v ∷ ys
set_at q y ys i v e =
    ap (λ (j : ℕ). set (q ++ y ∷ ys) j v) (e ∙ zero_more (length q)) ∙ set_behind q (y ∷ ys) 0 v
  where
    zero_more : (n : ℕ) → n ≡ n + 0
    zero_more n = omega arith

-- The characters of a label go where they belong.
loop-chars :
    (x cs : Text) (q m r : List ℕ) (i len_ptr piece : ℕ)
    → All (λ c. c ≢ 46) x
    → length m ≡ length x
    → 12 + i ≡ length q
    → piece + length x < 256
    → name_loop (x ++ cs) i len_ptr piece (q ++ (m ++ r))
      ≡ name_loop cs (i + length x) len_ptr (piece + length x) (q ++ (x ++ r))
unfolding name_loop
loop-chars [] cs q [] r i len_ptr piece h e f g =
    ap (λ (j : ℕ). name_loop cs j len_ptr piece (q ++ r)) (omega arith)
    ∙ ap (λ (j : ℕ). name_loop cs (i + 0) len_ptr j (q ++ r)) (omega arith)
loop-chars [] cs q (y ∷ m) r i len_ptr piece h e f g = absurd (omega arith)
loop-chars (c ∷ x) cs q [] r i len_ptr piece h e f g = absurd (omega arith)
loop-chars (c ∷ x) cs q (y ∷ m) r i len_ptr piece (n, h) e f g =
    if_no (c == 46) _ _ (ne→==_false c 46 n)
    ∙ ap (name_loop (x ++ cs) (i + 1) len_ptr ((piece + 1) % 256))
        (set_at q y (m ++ r) (12 + i) c f ∙ sym (append_assoc q (c ∷ []) (m ++ r)))
    ∙ ap (λ (p : ℕ). name_loop (x ++ cs) (i + 1) len_ptr p ((q ++ c ∷ []) ++ (m ++ r)))
        (omega arith)
    ∙ loop-chars x cs (q ++ c ∷ []) m r (i + 1) len_ptr (piece + 1) h (omega arith)
        (omega (arith, length-append q (c ∷ []))) (omega arith)
    ∙ ap (λ (j : ℕ). name_loop cs j len_ptr (piece + 1 + length x) ((q ++ c ∷ []) ++ (x ++ r)))
        (omega arith)
    ∙ ap (λ (j : ℕ). name_loop cs (i + suc (length x)) len_ptr j ((q ++ c ∷ []) ++ (x ++ r)))
        (omega arith)
    ∙ ap (name_loop cs (i + suc (length x)) len_ptr (piece + suc (length x)))
        (append_assoc q (c ∷ []) (x ++ r))

-- A list of a length that is a sum, in its parts.
parted :
    (n k : ℕ) (m : List ℕ)
    → length m ≡ n + suc k
    → (a : List ℕ) × (d : ℕ) × (b : List ℕ) × (m ≡ a ++ d ∷ b) × (length a ≡ n) × (length b ≡ k)
parted zero k [] e = absurd (omega arith)
parted zero k (d ∷ b) e = ([], d, b, refl, refl, omega arith)
parted (suc n) k [] e = absurd (omega arith)
parted (suc n) k (y ∷ m) e =
    let (a, d, b, f, la, lb) = parted n k m (omega arith) in
    (y ∷ a, d, b, ap (λ (t : List ℕ). y ∷ t) f, ap suc la, lb)

-- A label that goes into its length.
abbrev pub Short : Text → Type 0
Short x = Label x × (length x < 256)

-- The labels of a name go where they belong, with their lengths.
loop-names :
    (x : Text) (xs : List Text) (d m r : List ℕ) (l len_ptr : ℕ)
    → All Short (x ∷ xs)
    → length m ≡ length (join (x ∷ xs))
    → 12 + len_ptr ≡ length d
    → last_piece (name_loop (join (x ∷ xs)) (len_ptr + 1) len_ptr 0 (d ++ l ∷ (m ++ r)))
      ≡ d ++ (encode (x ∷ xs) ++ r)
unfolding join encode last_piece name_loop
loop-names x [] d m r l len_ptr (((_, nodot), short), _) e f =
    ap (λ (t : Text). last_piece (name_loop t (len_ptr + 1) len_ptr 0 (d ++ l ∷ (m ++ r))))
      (sym (append-nil x))
    ∙ ap (λ (b : List ℕ). last_piece (name_loop (x ++ []) (len_ptr + 1) len_ptr 0 b))
        (sym (append_assoc d (l ∷ []) (m ++ r)))
    ∙ ap last_piece (
        loop-chars x [] (d ++ l ∷ []) m r (len_ptr + 1) len_ptr 0 nodot e
          (omega (arith, length-append d (l ∷ []))) (omega arith))
    ∙ ap (λ (b : List ℕ). set b (12 + len_ptr) (0 + length x)) (append_assoc d (l ∷ []) (x ++ r))
    ∙ set_at d l (x ++ r) (12 + len_ptr) (0 + length x) f
    ∙ ap (λ (n : ℕ). d ++ n ∷ (x ++ r)) (omega arith)
    ∙ ap (λ (t : List ℕ). d ++ length x ∷ (t ++ r)) (sym (append-nil x))
loop-names x (y ∷ ys) d m r l len_ptr (((_, nodot), short), hs) e f =
    let rest = join (y ∷ ys) in
    let (a, l', m', split, la, lb) =
      parted (length x) (length rest) m (e ∙ length-append x (46 ∷ rest)) in
    let t = l' ∷ (m' ++ r) in
    let n = len_ptr + 1 + length x in
    ap
      (λ (b : List ℕ). last_piece (name_loop (x ++ 46 ∷ rest) (len_ptr + 1) len_ptr 0 (d ++ l ∷ b)))
      (ap (λ (u : List ℕ). u ++ r) split ∙ append_assoc a (l' ∷ m') r)
    ∙ ap (λ (b : List ℕ). last_piece (name_loop (x ++ 46 ∷ rest) (len_ptr + 1) len_ptr 0 b))
        (sym (append_assoc d (l ∷ []) (a ++ t)))
    ∙ ap last_piece (
        loop-chars x (46 ∷ rest) (d ++ l ∷ []) a t (len_ptr + 1) len_ptr 0 nodot la
          (omega (arith, length-append d (l ∷ []))) (omega arith))
    ∙ ap (λ (b : List ℕ). last_piece (name_loop rest (n + 1) n 0 b))
        (ap (λ (b : List ℕ). set b (12 + len_ptr) (0 + length x)) (append_assoc d (l ∷ []) (x ++ t))
          ∙ set_at d l (x ++ t) (12 + len_ptr) (0 + length x) f
          ∙ ap (λ (k : ℕ). d ++ k ∷ (x ++ t)) (omega arith)
          ∙ sym (append_assoc d (length x ∷ x) t))
    ∙ loop-names y ys (d ++ length x ∷ x) m' r l' n hs lb
        (omega (arith, f, length-append d (length x ∷ x)))
    ∙ append_assoc d (length x ∷ x) (encode (y ∷ ys) ++ r)
    ∙ ap (λ (b : List ℕ). d ++ length x ∷ b) (sym (append_assoc x (encode (y ∷ ys)) r))

length-encode : (x : Text) (xs : List Text) → length (encode (x ∷ xs)) ≡ length (join (x ∷ xs)) + 1
unfolding encode join
length-encode x [] = omega (arith, length-append x [])
length-encode x (y ∷ ys) = omega (
  arith,
  length-encode y ys,
  length-append x (encode (y ∷ ys)),
  length-append x (46 ∷ join (y ∷ ys)),
)

-- A write into the part behind.
set_in : (q ys : List ℕ) (j k v : ℕ) → j ≡ length q + k → set (q ++ ys) j v ≡ q ++ set ys k v
set_in q ys j k v e = ap (λ (j : ℕ). set (q ++ ys) j v) e ∙ set_behind q ys k v

-- The end of the message.
trailer-behind :
    (q : List ℕ) (r0 r1 r2 r3 r4 t i : ℕ)
    → i ≡ length q
    → request_trailer i t (q ++ r0 ∷ r1 ∷ r2 ∷ r3 ∷ r4 ∷ [])
      ≡ q ++ 0 ∷ (bytes16 (swap16 t) ++ 0 ∷ 1 ∷ [])
unfolding request_trailer
trailer-behind q r0 r1 r2 r3 r4 t i e =
    let lo = swap16 t % 256 in
    let hi = swap16 t / 256 % 256 in
    ap (λ (b : List ℕ). set (set (set (set b (i + 1) lo) (i + 1 + 1) hi) (i + 3) 0) (i + 3 + 1) 1)
      (set_in q (r0 ∷ r1 ∷ r2 ∷ r3 ∷ r4 ∷ []) i 0 0 (omega arith))
    ∙ ap (λ (b : List ℕ). set (set (set b (i + 1 + 1) hi) (i + 3) 0) (i + 3 + 1) 1)
        (set_in q (0 ∷ r1 ∷ r2 ∷ r3 ∷ r4 ∷ []) (i + 1) 1 lo (omega arith))
    ∙ ap (λ (b : List ℕ). set (set b (i + 3) 0) (i + 3 + 1) 1)
        (set_in q (0 ∷ lo ∷ r2 ∷ r3 ∷ r4 ∷ []) (i + 1 + 1) 2 hi (omega arith))
    ∙ ap (λ (b : List ℕ). set b (i + 3 + 1) 1)
        (set_in q (0 ∷ lo ∷ hi ∷ r3 ∷ r4 ∷ []) (i + 3) 3 0 (omega arith))
    ∙ set_in q (0 ∷ lo ∷ hi ∷ 0 ∷ r4 ∷ []) (i + 3 + 1) 4 1 (omega arith)

-- The header of a request.
abbrev pub header_bytes : ℕ → List ℕ
header_bytes id = bytes16 (swap16 id) ++ 1 ∷ 0 ∷ 0 ∷ 1 ∷ 0 ∷ 0 ∷ 0 ∷ 0 ∷ 0 ∷ 0 ∷ []

header-before :
    (id : ℕ) (a ys : List ℕ) → length a ≡ 12 → request_header id (a ++ ys) ≡ header_bytes id ++ ys
unfolding request_header
header-before id [] ys e = absurd (omega arith)
header-before id (s0 ∷ []) ys e = absurd (omega arith)
header-before id (s0 ∷ s1 ∷ []) ys e = absurd (omega arith)
header-before id (s0 ∷ s1 ∷ s2 ∷ []) ys e = absurd (omega arith)
header-before id (s0 ∷ s1 ∷ s2 ∷ s3 ∷ []) ys e = absurd (omega arith)
header-before id (s0 ∷ s1 ∷ s2 ∷ s3 ∷ s4 ∷ []) ys e = absurd (omega arith)
header-before id (s0 ∷ s1 ∷ s2 ∷ s3 ∷ s4 ∷ s5 ∷ []) ys e = absurd (omega arith)
header-before id (s0 ∷ s1 ∷ s2 ∷ s3 ∷ s4 ∷ s5 ∷ s6 ∷ []) ys e = absurd (omega arith)
header-before id (s0 ∷ s1 ∷ s2 ∷ s3 ∷ s4 ∷ s5 ∷ s6 ∷ s7 ∷ []) ys e = absurd (omega arith)
header-before id (s0 ∷ s1 ∷ s2 ∷ s3 ∷ s4 ∷ s5 ∷ s6 ∷ s7 ∷ s8 ∷ []) ys e = absurd (omega arith)
header-before id (s0 ∷ s1 ∷ s2 ∷ s3 ∷ s4 ∷ s5 ∷ s6 ∷ s7 ∷ s8 ∷ s9 ∷ []) ys e = absurd (omega arith)
header-before id (s0 ∷ s1 ∷ s2 ∷ s3 ∷ s4 ∷ s5 ∷ s6 ∷ s7 ∷ s8 ∷ s9 ∷ s10 ∷ []) ys e =
    absurd (omega arith)
header-before id (s0 ∷ s1 ∷ s2 ∷ s3 ∷ s4 ∷ s5 ∷ s6 ∷ s7 ∷ s8 ∷ s9 ∷ s10 ∷ s11 ∷ []) ys e = refl
header-before id (s0 ∷ s1 ∷ s2 ∷ s3 ∷ s4 ∷ s5 ∷ s6 ∷ s7 ∷ s8 ∷ s9 ∷ s10 ∷ s11 ∷ s12 ∷ a) ys e =
    absurd (omega arith)

five : (r : List ℕ) → length r ≡ 5 → (r0 r1 r2 r3 r4 : ℕ) × (r ≡ r0 ∷ r1 ∷ r2 ∷ r3 ∷ r4 ∷ [])
five [] e = absurd (omega arith)
five (a ∷ []) e = absurd (omega arith)
five (a ∷ b ∷ []) e = absurd (omega arith)
five (a ∷ b ∷ c ∷ []) e = absurd (omega arith)
five (a ∷ b ∷ c ∷ d ∷ []) e = absurd (omega arith)
five (a ∷ b ∷ c ∷ d ∷ f ∷ []) e = (a, b, c, d, f, refl)
five (a ∷ b ∷ c ∷ d ∷ f ∷ g ∷ r) e = absurd (omega arith)

-- The request in a buffer that is given in its parts.
request-parts :
    (a m : List ℕ) (l q0 q1 q2 q3 q4 id t : ℕ) (x : Text) (xs : List Text)
    → All Short (x ∷ xs)
    → length a ≡ 12
    → length m ≡ length (join (x ∷ xs))
    → generate_dns_request (a ++ l ∷ (m ++ q0 ∷ q1 ∷ q2 ∷ q3 ∷ q4 ∷ [])) id (join (x ∷ xs)) t
      ≡ header_bytes id ++ (encode (x ∷ xs) ++ 0 ∷ (bytes16 (swap16 t) ++ 0 ∷ 1 ∷ []))
unfolding generate_dns_request name_loop
request-parts a m l q0 q1 q2 q3 q4 id t x xs h la lm =
    let name = join (x ∷ xs) in
    let r = q0 ∷ q1 ∷ q2 ∷ q3 ∷ q4 ∷ [] in
    let finish = request_trailer (12 + length (46 ∷ name)) t in
    ap (λ (b : List ℕ). finish (last_piece (name_loop (46 ∷ name) 0 0 0 b)))
      (header-before id a (l ∷ (m ++ r)) la)
    ∙ ap finish (loop-names x xs (header_bytes id) m r 0 0 h lm refl)
    ∙ ap finish (sym (append_assoc (header_bytes id) (encode (x ∷ xs)) r))
    ∙ trailer-behind (header_bytes id ++ encode (x ∷ xs)) q0 q1 q2 q3 q4 t (12 + length (46 ∷ name))
        (omega (arith, length-append (header_bytes id) (encode (x ∷ xs)), length-encode x xs))
    ∙ append_assoc (header_bytes id) (encode (x ∷ xs)) (0 ∷ (bytes16 (swap16 t) ++ 0 ∷ 1 ∷ []))

-- Whatever the buffer held before, the request for a name of labels of less than 256 characters is
-- its header, the labels with their lengths before them, a zero, the type and the class.
pub generate_dns_request-encodes :
    (sized : List ℕ) (id t : ℕ) (x : Text) (xs : List Text)
    → All Short (x ∷ xs)
    → length sized ≡ length (46 ∷ join (x ∷ xs)) + request_overhead
    → generate_dns_request sized id (join (x ∷ xs)) t
      ≡ header_bytes id ++ (encode (x ∷ xs) ++ 0 ∷ (bytes16 (swap16 t) ++ 0 ∷ 1 ∷ []))
generate_dns_request-encodes sized id t x xs h e =
    let (a, l, rest, e1, la, lrest) = parted 12 (length (join (x ∷ xs)) + 5) sized (omega arith) in
    let (m, r0, r, e2, lm, lr) = parted (length (join (x ∷ xs))) 4 rest (omega arith) in
    let (q0, q1, q2, q3, q4, e3) = five (r0 ∷ r) (omega arith) in
    ap (λ (b : List ℕ). generate_dns_request b id (join (x ∷ xs)) t)
      (e1 ∙ ap (λ (b : List ℕ). a ++ l ∷ b) (e2 ∙ ap (λ (b : List ℕ). m ++ b) e3))
    ∙ request-parts a m l q0 q1 q2 q3 q4 id t x xs h la lm
