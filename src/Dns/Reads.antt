-- ===== src/Dns/Reads.antt =====
-- src/inspect/dns.cpp: what a read of DNS_Packet::load shows of the buffer.
use smithproxy.Base.{
  ℕ, suc, ◌+◌, ◌≤◌, ◌<◌, ◌≡◌, refl, inl, inr, true, false, List, some, ltb, length, get_elem?,
  get_elem?-lt, get_elem?-ge, Bool-cases, ltb→lt, arith, leb,
}
use smithproxy.Base.Outcome.{Safely, Safely->>=}
use smithproxy.Base.Bytes.{Buffers, IsBuffers, byte_at, word_at, dword_at, raw_at}
use smithproxy.Dns.{Packet}
use smithproxy.Dns.Loader.{Loader, reads, follow, Returns, Returns-reads}
use smithproxy.Dns.Names.{construct_qname, skip_qname, construct_qname-returns, skip_qname-returns}

byte_at-Safely : (src : List ℕ) (i : ℕ) → Safely (λ (_ : ℕ). i < length src) (byte_at src i)
byte_at-Safely src i = elim (Bool-cases (ltb i (length src))) [
  | inl e ↦
      let lt = ltb→lt i (length src) e in
      let (a, g) = get_elem?-lt src i lt in rw (g, Safely, byte_at) lt
  | inr e ↦ rw (get_elem?-ge src i (beyond i (length src) e), Safely, byte_at) refl
]
  where
    beyond : (i n : ℕ) → ltb i n ≡ false → n ≤ i
    beyond i n e = ground arith

word_at-Safely : (src : List ℕ) (i : ℕ) → Safely (λ (_ : ℕ). i + 2 ≤ length src) (word_at src i)
word_at-Safely src i =
    Safely->>= (λ (_ : ℕ). i < length src) (λ (_ : ℕ). i + 2 ≤ length src) (byte_at src i) _
      (byte_at-Safely src i)
      λ lo _.
        Safely->>= (λ (_ : ℕ). i + 1 < length src) (λ (_ : ℕ). i + 2 ≤ length src)
          (byte_at src (i + 1)) _ (byte_at-Safely src (i + 1)) λ hi h. omega arith

dword_at-Safely : (src : List ℕ) (i : ℕ) → Safely (λ (_ : ℕ). i + 4 ≤ length src) (dword_at src i)
dword_at-Safely src i =
    Safely->>= (λ (_ : ℕ). i + 2 ≤ length src) (λ (_ : ℕ). i + 4 ≤ length src) (word_at src i) _
      (word_at-Safely src i)
      λ lo _.
        Safely->>= (λ (_ : ℕ). i + 2 + 2 ≤ length src) (λ (_ : ℕ). i + 4 ≤ length src)
          (word_at src (i + 2)) _ (word_at-Safely src (i + 2)) λ hi h. omega arith

-- A step that reads one value goes on with what the read shows.
module _ {ℓ} {A : Type ℓ} (Q : A → Packet → Type 0) where
  module _ (B : Buffers) (laws : IsBuffers B) (src : List ℕ) where
    open B use {get_at_u8, get_at_u16, get_at_u32}

    pub Returns-get_at_u8 :
        (i : ℕ) (f : ℕ → Loader A) (p : Packet)
        → ((a : ℕ) → i < length src → Returns Q (f a p))
        → Returns Q (follow (reads (get_at_u8 src i) p) f)
    Returns-get_at_u8 i f p =
        Returns-reads (λ (_ : ℕ). i < length src) Q (get_at_u8 src i) f p
          (rw (laws.reads_u8 src i) (byte_at-Safely src i))

    pub Returns-get_at_u16 :
        (i : ℕ) (f : ℕ → Loader A) (p : Packet)
        → ((a : ℕ) → i + 2 ≤ length src → Returns Q (f a p))
        → Returns Q (follow (reads (get_at_u16 src i) p) f)
    Returns-get_at_u16 i f p =
        Returns-reads (λ (_ : ℕ). i + 2 ≤ length src) Q (get_at_u16 src i) f p
          (rw (laws.reads_u16 src i) (word_at-Safely src i))

    pub Returns-get_at_u32 :
        (i : ℕ) (f : ℕ → Loader A) (p : Packet)
        → ((a : ℕ) → i + 4 ≤ length src → Returns Q (f a p))
        → Returns Q (follow (reads (get_at_u32 src i) p) f)
    Returns-get_at_u32 i f p =
        Returns-reads (λ (_ : ℕ). i + 4 ≤ length src) Q (get_at_u32 src i) f p
          (rw (laws.reads_u32 src i) (dword_at-Safely src i))

  module _ (src : List ℕ) where
    pub Returns-raw_at :
        (i n : ℕ) (f : List ℕ → Loader A) (p : Packet)
        → i + n ≤ length src
        → ((t : List ℕ) → Returns Q (f t p))
        → Returns Q (follow (reads (raw_at src i n) p) f)
    Returns-raw_at i n f p h k = rw (fits (i + n) (length src) h, raw_at) (k _)
      where
        fits : (a b : ℕ) → a ≤ b → leb a b ≡ true
        fits a b h = ground arith

    module _ (ends : (j c : ℕ) → get_elem? src j ≡ some c → 192 ≤ c → j + 1 < length src) where
      pub Returns-construct_qname :
          (loops i : ℕ) (f : List ℕ → Loader A) (p : Packet)
          → ((t : List ℕ) → Returns Q (f t p))
          → Returns Q (follow (reads (construct_qname src loops i) p) f)
      Returns-construct_qname loops i f p k =
          let (t, e) = construct_qname-returns src loops i ends in rw e (k t)

      pub Returns-skip_qname :
          (i : ℕ) (f : ℕ → Loader A) (p : Packet)
          → i < length src
          → ((xi : ℕ) → Returns Q (f xi p))
          → Returns Q (follow (reads (skip_qname src i) p) f)
      Returns-skip_qname i f p h k =
          let (n, e) = skip_qname-returns src i h ends in rw e (k (suc n))
