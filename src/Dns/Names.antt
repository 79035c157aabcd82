-- ===== src/Dns/Names.antt =====
-- src/inspect/dns.cpp: DNSFactory::construct_qname and skip_qname, which read a name of a packet.
use smithproxy.Base.{
  ℕ, zero, suc, ◌+◌, ◌-◌, ◌≤◌, ◌<◌, ◌≡◌, refl, inl, inr, true, false, List, [], ◌∷◌, ◌++◌, none,
  some, Text, ◌==◌, ltb, leb, if◌then◌else◌, length, take, drop, get_elem?, get_elem?-lt,
  Bool-cases, if-keeps, ap, arith,
}
use smithproxy.Base.Outcome.{Outcome, value, undefined, ◌>>=◌}
use smithproxy.Base.Bytes.{raw_at}

-- A read through a pointer into the packet, which nothing checks.
abbrev pub raw_byte : List ℕ → ℕ → Outcome ℕ
raw_byte packet i = elim (get_elem? packet i) [ none ↦ undefined | some x ↦ value x ]

-- The rest of a name behind a label.
unfoldable pub dotted : Text → Text
dotted [] = []
dotted (x ∷ xs) = 46 ∷ x ∷ xs

-- The length of the bytes before the first zero.
unfoldable pub label_end : List ℕ → ℕ
label_end [] = 0
label_end (c ∷ cs) = if c == 0 then 0 else suc (label_end cs)

module _ (packet : List ℕ) where
  -- How many bytes the name at an index takes, labels or one pointer. No caller stores the name.
  unfoldable pub skip_qname : ℕ → Outcome ℕ
  skip_qname i = do
    c ← raw_byte packet i
    if c == 0
        then value 1
        else if ltb c 192
        then value (label_end (drop i packet) + 1)
        else (do low ← raw_byte packet (i + 1); value 2)

  -- A label that runs past the packet is cut at its end.
  unfoldable pub part_size : ℕ → ℕ → ℕ
  part_size i c = if ltb (length packet) (i + 1 + c) then length packet - (i + 1) else c

  -- `rec` is the recursive call, with one loop less.
  unfoldable pub plain_label : (ℕ → Outcome Text) → ℕ → ℕ → Outcome Text
  plain_label rec i c = do
    part ← raw_at packet (i + 1) (part_size i c)
    if ltb (i + 1 + c) (length packet)
        then (do ret ← rec (i + 1 + c); value (part ++ dotted ret))
        else value part

  unfoldable pub compressed_label : (ℕ → Outcome Text) → ℕ → ℕ → Outcome Text
  compressed_label rec i c = do low ← raw_byte packet (i + 1); rec (low + (c - 192))

  unfoldable pub name_step : (ℕ → Outcome Text) → ℕ → Outcome Text
  name_step rec i = if leb (length packet) i then value [] else do
    c ← raw_byte packet i
    if c == 0 then value [] else if ltb c 192 then plain_label rec i c else compressed_label rec i c

  -- The name at an index of the packet, over at most `loopmax` labels and references.
  unfoldable pub construct_qname : ℕ → ℕ → Outcome Text
  construct_qname zero i = value []
  construct_qname (suc loopmax) i = name_step (construct_qname loopmax) i

  -- Some text.
  abbrev Named : Outcome Text → Type 0
  Named m = (t : Text) × (m ≡ value t)

  Named->>= :
      {A : Type 0} (m : Outcome A) (f : A → Outcome Text) (a : A)
      → m ≡ value a
      → Named (f a)
      → Named (m >>= f)
  Named->>= m f a e h = rw e h

  raw_byte-value : (i c : ℕ) → get_elem? packet i ≡ some c → raw_byte packet i ≡ value c
  raw_byte-value i c e = rw (e, raw_byte) refl

  raw_at-value :
      (i n : ℕ) → i + n ≤ length packet → raw_at packet i n ≡ value (take n (drop i packet))
  raw_at-value i n h = rw (le→leb (i + n) (length packet) h, raw_at) refl
    where
      le→leb : (a b : ℕ) → a ≤ b → leb a b ≡ true
      le→leb a b h = ground arith

  part_inside : (i c : ℕ) → i < length packet → i + 1 + part_size i c ≤ length packet
  unfolding part_size
  part_inside i c h = ground arith

  -- Every pointer byte has a byte behind it.
  abbrev pub PointersEnd : Type 0
  PointersEnd = (i c : ℕ) → get_elem? packet i ≡ some c → 192 ≤ c → i + 1 < length packet

  -- skip_qname inside the packet returns a positive length.
  pub skip_qname-returns :
      (i : ℕ)
      → i < length packet
      → ((j c : ℕ) → get_elem? packet j ≡ some c → 192 ≤ c → j + 1 < length packet)
      → (n : ℕ) × (skip_qname i ≡ value (suc n))
  unfolding skip_qname
  skip_qname-returns i lt ends =
      let (c, g) = get_elem?-lt packet i lt in rw (raw_byte-value i c g) (skipped c g)
    where
      big : (c : ℕ) → ltb c 192 ≡ false → 192 ≤ c
      big c e = ground arith

      Skips : Outcome ℕ → Type 0
      Skips m = (n : ℕ) × (m ≡ value (suc n))

      skipped :
          (c : ℕ)
          → get_elem? packet i ≡ some c
          → Skips (
              if c == 0
              then value 1
              else if ltb c 192
              then value (label_end (drop i packet) + 1)
              else raw_byte packet (i + 1) >>= λ low. value 2)
      skipped c g =
          if-keeps Skips (c == 0) _ _ (0, refl)
            (elim (Bool-cases (ltb c 192)) [
              | inl e ↦ rw e (label_end (drop i packet), ap value (omega arith))
              | inr e ↦
                  let (low, f) = get_elem?-lt packet (i + 1) (ends i c g (big c e)) in
                  rw (e, raw_byte-value (i + 1) low f) (1, refl)
            ])

  plain_label-Named :
      (rec : ℕ → Outcome Text) (i c : ℕ)
      → ((j : ℕ) → Named (rec j))
      → i < length packet
      → Named (plain_label rec i c)
  unfolding plain_label
  plain_label-Named rec i c h lt =
      Named->>= _ _ (take (part_size i c) (drop (i + 1) packet))
        (raw_at-value (i + 1) (part_size i c) (part_inside i c lt))
        (if-keeps Named (ltb (i + 1 + c) (length packet)) _ _
          (let (t, e) = h (i + 1 + c) in Named->>= _ _ t e (_, refl)) (_, refl))

  compressed_label-Named :
      (rec : ℕ → Outcome Text) (i c : ℕ)
      → ((j : ℕ) → Named (rec j))
      → i + 1 < length packet
      → Named (compressed_label rec i c)
  unfolding compressed_label
  compressed_label-Named rec i c h lt =
      let (low, e) = get_elem?-lt packet (i + 1) lt in
      Named->>= _ _ low (raw_byte-value (i + 1) low e) (h (low + (c - 192)))

  name_step-Named :
      (rec : ℕ → Outcome Text) (i : ℕ)
      → PointersEnd
      → ((j : ℕ) → Named (rec j))
      → Named (name_step rec i)
  unfolding name_step
  name_step-Named rec i ends h = elim (Bool-cases (leb (length packet) i)) [
    | inl e ↦ rw e ([], refl)
    | inr e ↦
        let lt = inside i e in
        let (c, g) = get_elem?-lt packet i lt in
        rw e (
          Named->>= _ _ c (raw_byte-value i c g)
            (if-keeps Named (c == 0) _ _ ([], refl) (label c g lt)))
  ]
    where
      inside : (i : ℕ) → leb (length packet) i ≡ false → i < length packet
      inside i e = ground arith

      big : (c : ℕ) → ltb c 192 ≡ false → 192 ≤ c
      big c e = ground arith

      label :
          (c : ℕ)
          → get_elem? packet i ≡ some c
          → i < length packet
          → Named (if ltb c 192 then plain_label rec i c else compressed_label rec i c)
      label c g lt = elim (Bool-cases (ltb c 192)) [
        | inl e ↦ rw e (plain_label-Named rec i c h lt)
        | inr e ↦ rw e (compressed_label-Named rec i c h (ends i c g (big c e)))
      ]

  -- In a packet whose last byte is not the first byte of a pointer, construct_qname reads nothing
  -- outside the packet and returns a text, whatever the index, the labels and the pointers, loops
  -- of pointers included.
  pub construct_qname-returns :
      (loopmax i : ℕ)
      → ((j c : ℕ) → get_elem? packet j ≡ some c → 192 ≤ c → j + 1 < length packet)
      → (t : Text) × (construct_qname loopmax i ≡ value t)
  unfolding construct_qname
  construct_qname-returns zero i ends = ([], refl)
  construct_qname-returns (suc loopmax) i ends =
      name_step-Named (construct_qname loopmax) i ends (λ j. construct_qname-returns loopmax j ends)
