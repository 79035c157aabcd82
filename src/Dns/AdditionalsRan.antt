-- ===== src/Dns/AdditionalsRan.antt =====
-- src/inspect/dns.cpp: how the additional section of DNS_Packet::load ends.
use smithproxy.Base.{
  ℕ, zero, suc, ◌+◌, ◌≤◌, ◌<◌, ◌≡◌, inl, inr, ◌||◌, List, Option, none, some, ltb, leb, ◌==◌,
  length, Bool-cases, if-keeps, get_elem?, ltb→lt, arith,
}
use smithproxy.Base.Bytes.{Buffers, IsBuffers, swap16}
use smithproxy.Dns.{Packet, type_a, type_aaaa, type_txt, type_opt}
use smithproxy.Dns.Loader.{Loader, Returns, Returns-follow, Returns-weaken}
use smithproxy.Dns.Reads.{
  Returns-get_at_u8, Returns-get_at_u16, Returns-get_at_u32, Returns-construct_qname,
  Returns-skip_qname,
}
use smithproxy.Dns.Records.{
  additional, additional_record, typed_additional, opt_record, opt_data, behind_data,
  next_additional, additional_section, push_additional, push_ttl_idx, loop_max,
}
use smithproxy.Dns.Tally.{Spaced, Spaced-up, Spaced-append, SameCounts, Tally}

-- What the additional section keeps of the sections before it, and the positions so far.
abbrev pub Kept : ℕ → Packet → ℕ → ℕ → ℕ → ℕ → Packet → Type 0
Kept n header q a au mem p =
    SameCounts header p
    × (length p.questions_list + q ≡ header.questions)
    × (length p.answers_list + a ≡ header.answers)
    × (length p.authorities_list + au ≡ header.authorities)
    × Spaced n 12 p.answer_ttl_idx mem

pub Tally-Kept :
    (n : ℕ) (header : Packet) (q a au mem : ℕ) (p : Packet)
    → Tally n header q a au mem p
    → Kept n header q a au mem p
Tally-Kept n header q a au mem p t =
    (t.counts, t.questions_read, t.answers_read, t.authorities_read, t.ttls)

module _ (B : Buffers) (laws : IsBuffers B) (src : List ℕ) (header : Packet) (q a au : ℕ)
    (ends : (j c : ℕ) → get_elem? src j ≡ some c → 192 ≤ c → j + 1 < length src) where
  Keeps : ℕ → Packet → Type 0
  Keeps mem p = Kept (length src) header q a au mem p

  Keeps-up : (mem top : ℕ) (p : Packet) → mem ≤ top → Keeps mem p → Keeps top p
  unfolding Keeps
  Keeps-up mem top p h (c, k1, k2, k3, s) =
      (c, k1, k2, k3, Spaced-up (length src) 12 p.answer_ttl_idx mem top h s)

  -- The end of one record, from `i`.
  AdditionalRan : ℕ → Option ℕ → Packet → Type 0
  unfolding Keeps
  AdditionalRan i none p = Keeps i p
  AdditionalRan i (some next) p = (i ≤ next) × Keeps next p

  opt_record-Ran :
      (start i : ℕ) (p : Packet)
      → start ≤ i
      → Keeps start p
      → Returns (AdditionalRan start) (opt_record B src i p)
  unfolding opt_record opt_data AdditionalRan
  opt_record-Ran start i p up k = Returns-get_at_u16 Q B laws src i _ p λ _ _.
      Returns-get_at_u8 Q B laws src (i + 2) _ p λ _ _.
        Returns-get_at_u8 Q B laws src (i + 3) _ p λ _ _.
          Returns-get_at_u16 Q B laws src (i + 4) _ p λ _ _.
            Returns-get_at_u16 Q B laws src (i + 6) _ p λ size _.
              if-keeps (λ (m : Loader (Option ℕ)). Returns Q (m p))
                (leb (i + 8 + swap16 size) (length src)) _ _
                (if-keeps (λ (m : Loader (Option ℕ)). Returns Q (m p)) (ltb 0 (swap16 size)) _ _
                  (Returns-get_at_u16 Q B laws src (i + 8 + 2) _ p λ _ _.
                    Returns-get_at_u16 Q B laws src (i + 8 + 4) _ p
                      λ _ _. moved (i + 8 + swap16 size) (omega arith))
                  (moved (i + 8) (omega arith)))
                k
    where
      Q : Option ℕ → Packet → Type 0
      Q = AdditionalRan start

      moved : (top : ℕ) → start ≤ top → (start ≤ top) × Keeps top p
      moved top h = (h, Keeps-up start top p h k)

  additional_record-Ran :
      (pre_type start i : ℕ) (p : Packet)
      → start ≤ i
      → Keeps start p
      → Returns (AdditionalRan start) (additional_record B src pre_type start i p)
  unfolding additional_record AdditionalRan Keeps push_additional push_ttl_idx behind_data
  additional_record-Ran pre_type start i p up (c, k1, k2, k3, s) =
      Returns-construct_qname Q src ends loop_max start _ p λ name.
        Returns-get_at_u16 Q B laws src i _ p λ _ _.
          Returns-get_at_u32 Q B laws src (i + 2) _ _ λ _ inside.
            Returns-get_at_u16 Q B laws src (i + 6) _ _ λ size _.
              let top = behind (i + 8) (swap16 size) in
              (
                omega (arith, top),
                (
                  c,
                  k1,
                  k2,
                  k3,
                  Spaced-append (length src) 12 p.answer_ttl_idx start (i + 2) _ (omega arith)
                      inside (omega (arith, top)) s,
                ),
              )
    where
      Q : Option ℕ → Packet → Type 0
      Q = AdditionalRan start

      behind : (i datalen : ℕ) → i ≤ behind_data B src i datalen
      behind i datalen = ground arith

  additional-Ran :
      (i : ℕ) (p : Packet)
      → i < length src
      → Keeps i p
      → Returns (AdditionalRan i) (additional B src i p)
  unfolding additional typed_additional AdditionalRan
  additional-Ran i p lt k = Returns-skip_qname Q src ends i _ p lt λ xi.
      Returns-get_at_u16 Q B laws src (i + xi) _ p λ w _.
        let t = swap16 w in
        if-keeps (λ (m : Loader (Option ℕ)). Returns Q (m p)) (t == type_opt) _ _
          (opt_record-Ran i (i + (xi + 2)) p (omega arith) k)
          (if-keeps (λ (m : Loader (Option ℕ)). Returns Q (m p))
            ((t == type_a) || (t == type_aaaa) || (t == type_txt)) _ _
            (additional_record-Ran t i (i + (xi + 2)) p (omega arith) k) k)
    where
      Q : Option ℕ → Packet → Type 0
      Q = AdditionalRan i

  -- The additional section ends, with the other lists as they were, not before the position it
  -- started at.
  pub additional_section-Ran :
      (togo i : ℕ) (p : Packet)
      → Kept (length src) header q a au i p
      → Returns
          (λ mem s. (i ≤ mem) × Kept (length src) header q a au mem s)
          (additional_section B src togo i p)
  unfolding additional_section next_additional AdditionalRan Keeps
  additional_section-Ran zero i p k = (omega arith, k)
  additional_section-Ran (suc togo) i p k = elim (Bool-cases (ltb i (length src))) [
    | inr e ↦ rw e (omega arith, k)
    | inl e ↦ rw e (
        Returns-follow (AdditionalRan i) Q (additional B src i p)
          (next_additional B src (additional_section B src togo))
          (additional-Ran i p (ltb→lt i (length src) e) k)
          (next (ltb→lt i (length src) e) λ j s. additional_section-Ran togo j s))
  ]
    where
      Q : ℕ → Packet → Type 0
      Q mem s = (i ≤ mem) × Kept (length src) header q a au mem s

      next :
          i < length src
          → ((j : ℕ) (s : Packet)
              → Keeps j s
              → Returns (λ mem t. (j ≤ mem) × Keeps mem t) (additional_section B src togo j s))
          → (o : Option ℕ) (s : Packet) → AdditionalRan i o s
          → Returns Q (next_additional B src (additional_section B src togo) o s)
      next lt rec none s h = (omega arith, Keeps-up i (length src) s (omega arith) h)
      next lt rec (some j) s (up, h) =
          Returns-weaken (λ mem t. (j ≤ mem) × Keeps mem t) Q (additional_section B src togo j s)
            (rec j s h) λ mem t (low, k). (omega arith, k)
