-- ===== src/Dns/QuestionsRan.antt =====
-- src/inspect/dns.cpp: how the question section of DNS_Packet::load ends.
use smithproxy.Base.{
  ℕ, zero, suc, ◌+◌, ◌-◌, ◌≤◌, ◌<◌, ◌≡◌, refl, ◌⊎◌, inl, inr, true, false, ◌&&◌, List, ltb, leb,
  ◌==◌, if◌then◌else◌, length, Bool-cases, if-keeps, arith,
}
use smithproxy.Base.Bytes.{Buffers, IsBuffers, swap16}
use smithproxy.Dns.{Question, Packet, new_question}
use smithproxy.Dns.Loader.{Loader, pure, Returns, Returns-follow}
use smithproxy.Dns.Reads.{Returns-get_at_u8, Returns-get_at_u16, Returns-raw_at}
use smithproxy.Dns.Questions.{
  Cursor, failed_at, Rounds, question_end, question_label, question_round, question_rounds,
  next_question, question_section, join_label, push_question,
}
use smithproxy.Dns.Tally.{Tally, Tally-up, Tally-question, Ran}

module _ (B : Buffers) (laws : IsBuffers B) (src : List ℕ) (header : Packet) where
  -- The section's counts, with the answers and the authorities still to come.
  abbrev pub Read : ℕ → ℕ → Packet → Type 0
  Read togo mem p = Tally (length src) header togo header.answers header.authorities mem p

  -- The inner loop ends by a failure, or where the outer loop ends, too.
  abbrev pub QuestionsRan : Cursor → Packet → Type 0
  QuestionsRan c p =
      Ran (λ togo mem. (12 ≤ mem) × ((togo ≡ 0) ⊎ (length src ≤ mem)) × Read togo mem p) c

  -- What a round starts with.
  abbrev Starts : ℕ → ℕ → ℕ → Packet → Type 0
  Starts cur mem togo p = (12 ≤ cur) × (cur ≤ mem) × (cur ≤ length src) × Read togo mem p

  -- The rounds behind one are right wherever less is left to do.
  abbrev RoundsRight : Rounds B src → ℕ → Type 0
  RoundsRight rec fuel =
      (cur mem togo : ℕ) (q : Question) (p : Packet)
      → length src + togo < fuel + cur
      → Starts cur mem togo p
      → Returns QuestionsRan (rec cur mem togo q p)

  failed_Ran :
      (mem togo : ℕ) (p : Packet) → 0 < togo → Returns QuestionsRan (pure (failed_at mem togo) p)
  failed_Ran mem togo p h = inl (refl, h)

  question_end-Ran :
      (rec : Rounds B src) (fuel cur mem togo : ℕ) (q : Question) (p : Packet)
      → RoundsRight rec fuel
      → length src + suc togo < suc fuel + cur
      → Starts cur mem (suc togo) p
      → Returns QuestionsRan (question_end B src rec cur mem (suc togo) q p)
  unfolding question_end
  question_end-Ran rec fuel cur mem togo q p right f s =
      if-keeps (λ (m : Loader Cursor). Returns QuestionsRan (m p)) (ltb (length src) (cur + 5)) _ _
        (failed_Ran (length src) (suc togo) p (omega arith))
        (Returns-get_at_u16 QuestionsRan B laws src (cur + 1) _ p λ kind _.
          Returns-get_at_u16 QuestionsRan B laws src (cur + 3) _ p λ klass _.
            let q = record q { rec_type = swap16 kind; rec_class = swap16 klass } in
            rw (one_less togo) (
              right cur (mem + 5) togo q (push_question q p) (omega arith) (
                s.0,
                omega (arith, s.1),
                s.2,
                Tally-question _ _ q togo _ _ (mem + 5) p
                    (Tally-up _ _ (suc togo) _ _ mem (mem + 5) p (omega arith) s.3),
              )))
    where
      one_less : (k : ℕ) → suc k - 1 ≡ k
      one_less k = omega arith

  question_label-Ran :
      (rec : Rounds B src) (fuel field_len cur mem togo : ℕ) (q : Question) (p : Packet)
      → RoundsRight rec fuel
      → length src + suc togo < suc fuel + cur
      → 0 < field_len
      → cur + field_len < length src
      → Starts cur mem (suc togo) p
      → Returns QuestionsRan (question_label B src rec field_len cur mem (suc togo) q p)
  unfolding question_label
  question_label-Ran rec fuel field_len cur mem togo q p right f pos inside s =
      if-keeps (λ (m : Loader Cursor). Returns QuestionsRan (m p)) (ltb (length src) field_len) _ _
        (failed_Ran (length src) (suc togo) p (omega arith))
        (if-keeps (λ (m : Loader Cursor). Returns QuestionsRan (m p)) (leb (length src) (cur + 1)) _
          _ (failed_Ran (length src) (suc togo) p (omega arith))
          (Returns-raw_at QuestionsRan src (cur + 1) field_len _ p (omega arith) λ t.
            right (cur + (field_len + 1)) (mem + (field_len + 1)) (suc togo)
              (record q { rec_str = join_label q.rec_str t }) p (omega arith)
              (
                omega (arith, s.0),
                omega (arith, s.1),
                omega arith,
                Tally-up _ _ (suc togo) _ _ mem _ p (omega arith) s.3,
              )))

  -- A round at a field of some length.
  question_field-Ran :
      (rec : Rounds B src) (fuel field_len cur mem togo : ℕ) (q : Question) (p : Packet)
      → RoundsRight rec fuel
      → length src + suc togo < suc fuel + cur
      → Starts cur mem (suc togo) p
      → Returns QuestionsRan (
          (if leb (length src) (cur + field_len)
              then pure (failed_at mem (suc togo))
              else if field_len == 0
              then question_end B src rec cur mem (suc togo) q
              else question_label B src rec field_len cur mem (suc togo) q)
            p)
  question_field-Ran rec fuel field_len cur mem togo q p right f s =
      elim (Bool-cases (leb (length src) (cur + field_len))) [
        | inl e ↦ rw e (failed_Ran mem (suc togo) p (omega arith))
        | inr e ↦ rw e (elim (Bool-cases (field_len == 0)) [
          | inl z ↦ rw z (question_end-Ran rec fuel cur mem togo q p right f s)
          | inr z ↦ rw z (
              question_label-Ran rec fuel field_len cur mem togo q p right f (positive field_len z)
                (inside (length src) (cur + field_len) e) s)
        ])
      ]
    where
      positive : (k : ℕ) → (k == 0) ≡ false → 0 < k
      positive k e = ground arith

      inside : (n k : ℕ) → leb n k ≡ false → k < n
      inside n k e = ground arith

  question_rounds-Ran : (fuel : ℕ) → RoundsRight (question_rounds B src fuel) fuel
  unfolding question_rounds question_round
  question_rounds-Ran zero cur mem togo q p f s = absurd (omega (arith, s.2))
  question_rounds-Ran (suc fuel) cur mem zero q p f s =
      rw nothing (inr (refl, (omega (arith, s.0, s.1), inl refl, s.3)))
    where
      nothing : (ltb cur (length src) && false) ≡ false
      nothing = ground arith
  question_rounds-Ran (suc fuel) cur mem (suc togo) q p f s =
      elim (Bool-cases (ltb cur (length src))) [
        | inr e ↦
            rw e
              (inr (refl, (omega (arith, s.0, s.1), inr (beyond cur (length src) mem e s.1), s.3)))
        | inl e ↦
            rw (e, some_left togo)
              (Returns-get_at_u8 QuestionsRan B laws src cur _ p λ field_len _.
                question_field-Ran (question_rounds B src fuel) fuel field_len cur mem togo q p
                  (question_rounds-Ran fuel) f s)
      ]
    where
      beyond : (c n m : ℕ) → ltb c n ≡ false → c ≤ m → n ≤ m
      beyond c n m e h = ground arith

      some_left : (k : ℕ) → ltb 0 (suc k) ≡ true
      some_left k = ground arith

  -- What the inner loop leaves, the outer loop leaves as it is.
  after_inner :
      (c : Cursor) (p : Packet)
      → QuestionsRan c p
      → Returns QuestionsRan (next_question B src (question_section B src 1) c p)
  unfolding next_question question_section
  after_inner c p (inl (e, h)) = rw e (inl (refl, h))
  after_inner c p (inr (e, (low, over, t))) = rw (e, stops over) (inr (refl, (low, over, t)))
    where
      stops : {m k : ℕ} → (k ≡ 0) ⊎ (length src ≤ m) → (ltb m (length src) && ltb 0 k) ≡ false
      stops {m} {k} h = ground arith

  -- The question section ends in the buffer with all questions read, or at its end, or by a failure.
  pub question_section-Ran :
      (mem togo : ℕ) (p : Packet)
      → 12 ≤ mem
      → mem < length src
      → Tally (length src) header togo header.answers header.authorities mem p
      → Returns QuestionsRan (question_section B src 2 mem togo p)
  unfolding question_section
  question_section-Ran mem zero p low lt t = rw nothing (inr (refl, (low, inl refl, t)))
    where
      nothing : (ltb mem (length src) && false) ≡ false
      nothing = ground arith
  question_section-Ran mem (suc togo) p low lt t = rw starts (
      Returns-follow QuestionsRan QuestionsRan
        (question_rounds B src (suc (length src + suc togo)) mem mem (suc togo) new_question p)
        (next_question B src (question_section B src 1))
        (question_rounds-Ran (suc (length src + suc togo)) mem mem (suc togo) new_question p
          (omega arith) (low, omega arith, omega arith, t))
        after_inner)
    where
      starts : (ltb mem (length src) && ltb 0 (suc togo)) ≡ true
      starts = ground arith
