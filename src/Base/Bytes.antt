-- ===== src/Base/Bytes.antt =====
-- The socle library's `buffer`, which is not part of this repository: its checked reads enter as an
-- interface. The host is little-endian, as `ntohs` and `htons` have work to do only there.
use smithproxy.Base.{
  true, false, ℕ, ◌+◌, ◌*◌, ◌/◌, ◌%◌, ◌≤◌, ◌<◌, ◌≡◌, refl, ap, ◌∙◌, List, [], ◌∷◌, ◌++◌, none, some,
  arith, get_elem?, get_elem?-append_right, take, drop, length, leb, if◌then◌else◌,
}
use smithproxy.Base.Outcome.{Outcome, value, throws, undefined, out_of_range, ◌>>=◌}

-- A checked read of one byte.
abbrev pub byte_at : List ℕ → ℕ → Outcome ℕ
byte_at b i = elim (get_elem? b i) [ none ↦ throws out_of_range | some x ↦ value x ]

-- uint16_t and uint32_t in the host's byte order.
abbrev pub word_at : List ℕ → ℕ → Outcome ℕ
word_at b i = do lo ← byte_at b i; hi ← byte_at b (i + 1); value (lo + hi * 256)

abbrev pub dword_at : List ℕ → ℕ → Outcome ℕ
dword_at b i = do lo ← word_at b i; hi ← word_at b (i + 2); value (lo + hi * 65536)

-- A checked read of sixteen bytes.
abbrev pub sixteen_at : List ℕ → ℕ → Outcome (List ℕ)
sixteen_at b i = if leb (i + 16) (length b) then value (take 16 (drop i b)) else throws out_of_range

-- A read through the pointer of `data()`, which nothing checks.
abbrev pub raw_at : List ℕ → ℕ → ℕ → Outcome (List ℕ)
raw_at b i n = if leb (i + n) (length b) then value (take n (drop i b)) else undefined

-- `buffer::get_at<T>`, `buffer::view` and `buffer::copy_from<16>`. A read past the end throws std::out_of_range.
pub record Buffers : Type 0 where
  pub get_at_u8 : List ℕ → ℕ → Outcome ℕ
  pub get_at_u16 : List ℕ → ℕ → Outcome ℕ
  pub get_at_u32 : List ℕ → ℕ → Outcome ℕ
  pub view : List ℕ → ℕ → ℕ → List ℕ
  pub copy_from_16 : List ℕ → ℕ → Outcome (List ℕ)

-- What the callers rely on.
pub record IsBuffers (B : Buffers) : Type 0 where
  pub reads_u8 : (b : List ℕ) (i : ℕ) → B.get_at_u8 b i ≡ byte_at b i
  pub reads_u16 : (b : List ℕ) (i : ℕ) → B.get_at_u16 b i ≡ word_at b i
  pub reads_u32 : (b : List ℕ) (i : ℕ) → B.get_at_u32 b i ≡ dword_at b i
  pub copies : (b : List ℕ) (i : ℕ) → B.copy_from_16 b i ≡ sixteen_at b i
  pub views : (b : List ℕ) (i n : ℕ) → i + n ≤ length b → B.view b i n ≡ take n (drop i b)

-- An implementation that meets it.
abbrev pub plain_buffers : Buffers
plain_buffers = record {
  get_at_u8 = byte_at;
  get_at_u16 = word_at;
  get_at_u32 = dword_at;
  view = λ b i n. take n (drop i b);
  copy_from_16 = sixteen_at;
}

pub plain_buffers-IsBuffers : IsBuffers plain_buffers
plain_buffers-IsBuffers = record {
  reads_u8 = λ b i. refl;
  reads_u16 = λ b i. refl;
  reads_u32 = λ b i. refl;
  copies = λ b i. refl;
  views = λ b i n h. refl;
}

-- ntohs and htons, ntohl and htonl, on a little-endian host.
abbrev pub swap16 : ℕ → ℕ
swap16 w = w % 256 * 256 + w / 256 % 256

abbrev pub swap32 : ℕ → ℕ
swap32 w = swap16 (w % 65536) * 65536 + swap16 (w / 65536 % 65536)

pub swap16-swap16 : (w : ℕ) → w < 65536 → swap16 (swap16 w) ≡ w
swap16-swap16 w h = omega arith

-- The bytes of a uint16_t and a uint32_t in the host's memory.
abbrev pub bytes16 : ℕ → List ℕ
bytes16 w = w % 256 ∷ w / 256 % 256 ∷ []

abbrev pub bytes32 : ℕ → List ℕ
bytes32 w = w % 256 ∷ w / 256 % 256 ∷ w / 65536 % 256 ∷ w / 16777216 % 256 ∷ []

pub word_at-append :
    (xs ys : List ℕ) (i lo hi : ℕ)
    → i ≡ length xs
    → word_at (xs ++ lo ∷ hi ∷ ys) i ≡ value (lo + hi * 256)
word_at-append xs ys i lo hi e = ground (arith, first, second)
  where
    first : get_elem? (xs ++ lo ∷ hi ∷ ys) i ≡ some lo
    first =
        ap (get_elem? (xs ++ lo ∷ hi ∷ ys)) (omega arith)
        ∙ get_elem?-append_right xs (lo ∷ hi ∷ ys) 0

    second : get_elem? (xs ++ lo ∷ hi ∷ ys) (i + 1) ≡ some hi
    second =
        ap (get_elem? (xs ++ lo ∷ hi ∷ ys)) (ap (λ (k : ℕ). k + 1) e)
        ∙ get_elem?-append_right xs (lo ∷ hi ∷ ys) 1

-- A name of a length byte that leaves two bytes behind it lies inside the buffer.
pub raw_at-inside :
    (b : List ℕ) (n : ℕ)
    → leb (length b) (n + 4 + 2) ≡ false
    → raw_at b 5 n ≡ value (take n (drop 5 b))
raw_at-inside b n h = rw (inside, raw_at) refl
  where
    inside : leb (5 + n) (length b) ≡ true
    inside = ground arith
