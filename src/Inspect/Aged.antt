-- ===== src/Inspect/Aged.antt =====
-- src/inspect/dnsinspector.cpp: the reply that apply_verdict writes.
use smithproxy.Base.{
  ℕ, ◌+◌, ◌≤◌, ◌<◌, ◌≡◌, ◌⊎◌, refl, sym, ap, ◌∙◌, inl, inr, List, [], ◌∷◌, ◌++◌, some, Option,
  length, get_elem?, All, arith,
}
use smithproxy.Base.Outcome.{value}
use smithproxy.Base.Bytes.{Buffers, IsBuffers, word_at, dword_at, bytes16, bytes32, swap16, swap32}
use smithproxy.Base.Views.{dword_at-inside}
use smithproxy.Dns.Tally.{Spaced}
use smithproxy.Inspect.{Inspector, FlowCx, sub32}
use smithproxy.Inspect.Sound.{Positions}
use smithproxy.Inspect.Verdict.{age_ttls, mangle, framed, apply_reply, apply_verdict}
use smithproxy.Inspect.Written.{raw_write-Wrote, dword_at-same, dword_at-bytes32, word_at-bytes16}

-- A byte that belongs to no number at the positions.
abbrev pub Outside : ℕ → List ℕ → Type 0
Outside j is = All (λ i. (j < i) ⊎ (i + 4 ≤ j)) is

-- Every time to live is less than before by the decrement, with the wrap-around of uint32_t.
abbrev pub Lessened : ℕ → List ℕ → List ℕ → List ℕ → Type 0
Lessened decrement b c is =
    All
      (λ i.
        (t : ℕ) × (dword_at b i ≡ value t)
        × (dword_at c i ≡ value (swap32 (sub32 (swap32 t) decrement))))
      is

swap32_small : (w : ℕ) → swap32 w < 4294967296
swap32_small w = omega arith

Spaced-Outside : (n lo : ℕ) (is : List ℕ) (hi j : ℕ) → j < lo → Spaced n lo is hi → Outside j is
Spaced-Outside n lo [] hi j h s = tt
Spaced-Outside n lo (i ∷ is) hi j h (k, _, s) =
    (inl (omega arith), Spaced-Outside n (i + 4) is hi j (omega arith) s)

-- Numbers behind a write are as before it.
Lessened-before :
    (decrement n : ℕ) (b b' c : List ℕ) (lo : ℕ) (is : List ℕ) (hi : ℕ)
    → ((j : ℕ) → lo ≤ j → get_elem? b' j ≡ get_elem? b j)
    → Spaced n lo is hi
    → Lessened decrement b' c is
    → Lessened decrement b c is
Lessened-before decrement n b b' c lo [] hi same s h = tt
Lessened-before decrement n b b' c lo (i ∷ is) hi same (k, _, s) ((t, e, f), h) = (
  (t, sym (dword_at-same b b' i λ m _. same (i + m) (omega arith)) ∙ e, f),
  Lessened-before decrement n b b' c (i + 4) is hi (λ j g. same j (omega arith)) s h,
)

module _ (B : Buffers) (laws : IsBuffers B) (decrement : ℕ) where
  -- The end of the loop: the length, the bytes outside and the times to live.
  abbrev Aged : List ℕ → List ℕ → List ℕ → Type 0
  Aged b is c =
      (length c ≡ length b)
      × ((j : ℕ) → Outside j is → get_elem? c j ≡ get_elem? b j)
      × Lessened decrement b c is

  age_ttls-Aged :
      (n : ℕ) (b : List ℕ) (lo : ℕ) (is : List ℕ) (hi : ℕ)
      → length b ≡ n
      → Spaced n lo is hi
      → (c : List ℕ) × (age_ttls B decrement b is ≡ value c) × Aged b is c
  unfolding age_ttls
  age_ttls-Aged n b lo [] hi e s = (b, refl, (refl, λ j _. refl, tt))
  age_ttls-Aged n b lo (i ∷ is) hi e (low, inside, s) =
      let (t, read) = dword_at-inside b i (omega (arith, e)) in
      let new = swap32 (sub32 (swap32 t) decrement) in
      let (b', wrote, (same_length, there, else_same)) =
        raw_write-Wrote b i (bytes32 new) (omega (arith, e)) in
      let (c, rest, (len, out, less)) = age_ttls-Aged n b' (i + 4) is hi (same_length ∙ e) s in
      (
        c,
        rw (laws.reads_u32 b i, read, wrote) rest,
        (
          len ∙ same_length,
          λ j (here, others). out j others ∙ else_same j here,
          (
            (
              t,
              read,
              dword_at-same b' c i
                    (λ k h. out (i + k) (Spaced-Outside n (i + 4) is hi (i + k) (omega arith) s))
                  ∙ dword_at-bytes32 b' i new (swap32_small _) there,
            ),
            Lessened-before decrement n b b' c (i + 4) is hi (λ j g. else_same j (inr g)) s less,
          ),
        ),
      )

-- Numbers behind the first two bytes are as before a write there.
behind_id : (n lo : ℕ) (is : List ℕ) (hi j : ℕ) → j < 2 → 12 ≤ lo → Spaced n lo is hi → Outside j is
behind_id n lo is hi j h k s = Spaced-Outside n lo is hi j (omega arith) s

module _ (B : Buffers) (laws : IsBuffers B) where
  -- A reply of more bytes than a header, whose noted times to live lie in it in order and apart, is
  -- written once, in a frame over TCP, and kept as it is written: with its length, with the id of
  -- the request, with each time to live less by the decrement, and with all other bytes as before.
  pub apply_verdict-Aged :
      (inspector : Inspector) (cx : FlowCx) (b : List ℕ)
      → inspector.cached_response ≡ some b
      → inspector.cached_response_id < 65536
      → Positions b inspector.cached_response_ttl_idx
      → (c : List ℕ) × (apply_verdict B inspector cx
          ≡ value (
            record inspector { cached_response = some c },
            record cx { sent = cx.sent ++ framed B inspector.is_tcp c ∷ [] },
          ))
        × (length c ≡ length b)
        × (word_at c 0 ≡ value (swap16 inspector.cached_response_id))
        × ((j : ℕ)
            → 2 ≤ j
            → Outside j inspector.cached_response_ttl_idx
            → get_elem? c j ≡ get_elem? b j)
        × Lessened inspector.cached_response_decrement b c inspector.cached_response_ttl_idx
  unfolding apply_verdict apply_reply mangle
  apply_verdict-Aged inspector cx b e small (long, (hi, s)) =
      let is = inspector.cached_response_ttl_idx in
      let (b', wrote, (same_length, there, else_same)) =
        raw_write-Wrote b 0 (bytes16 (swap16 inspector.cached_response_id)) (omega arith) in
      let (c, aged, (len, out, less)) =
        age_ttls-Aged B laws inspector.cached_response_decrement (length b) b' 12 is hi same_length
          s in
      (
        c,
        ap (λ (o : Option (List ℕ)). apply_reply B o inspector cx) e ∙ rw (wrote, aged) refl,
        len ∙ same_length,
        word_at-bytes16 c (swap16 inspector.cached_response_id) (omega arith) (λ k h.
            out (0 + k) (behind_id (length b) 12 is hi (0 + k) (omega arith) (omega arith) s)
            ∙ there k h),
        (λ j h o. out j o ∙ else_same j (inr (omega arith))),
        Lessened-before inspector.cached_response_decrement (length b) b b' c 12 is hi
            (λ j h. else_same j (inr (omega arith))) s less,
      )
