-- ===== src/Dns/Questions.antt =====
-- src/inspect/dns.cpp: the question section of DNS_Packet::load.
use smithproxy.Base.{
  ℕ, zero, suc, ◌+◌, ◌-◌, true, false, Bool, ◌&&◌, List, [], ◌∷◌, ◌++◌, Text, ◌==◌, ltb, leb,
  if◌then◌else◌, length,
}
use smithproxy.Base.Bytes.{Buffers, raw_at, swap16}
use smithproxy.Dns.{Question, Packet, new_question}
use smithproxy.Dns.Loader.{Loader, ◌>>=◌, pure, reads, updates, out_of_fuel}

-- Where a section ends, what it still expects, and whether it failed.
pub record Cursor : Type 0 where
  pub mem_counter : ℕ
  pub togo : ℕ
  pub failure : Bool

abbrev pub at_cursor : ℕ → ℕ → Cursor
at_cursor mem togo = record { mem_counter = mem; togo = togo; failure = false }

abbrev pub failed_at : ℕ → ℕ → Cursor
failed_at mem togo = record { mem_counter = mem; togo = togo; failure = true }

-- The name so far and its next label.
unfoldable pub join_label : Text → Text → Text
join_label [] t = t
join_label (c ∷ cs) t = c ∷ (cs ++ 46 ∷ t)

unfoldable pub push_question : Question → Packet → Packet
push_question q p = record p { questions_list = p.questions_list ++ q ∷ [] }

module _ (B : Buffers) (src : List ℕ) where
  open B use {get_at_u8, get_at_u16}

  -- A round of the inner loop gets the rounds behind it as `rec`: from a position in the field, the
  -- position of the section, the questions to go and the question so far.
  abbrev pub Rounds : Type 0
  Rounds = ℕ → ℕ → ℕ → Question → Loader Cursor

  -- The zero label, with the type and the class behind it. The position in the field stays.
  unfoldable pub question_end : Rounds → Rounds
  question_end rec cur mem togo q =
      if ltb (length src) (cur + 5) then pure (failed_at (length src) togo) else do
        kind ← reads (get_at_u16 src (cur + 1))
        klass ← reads (get_at_u16 src (cur + 3))
        let q = record q { rec_type = swap16 kind; rec_class = swap16 klass }
        _ ← updates (push_question q)
        rec cur (mem + 5) (togo - 1) q

  unfoldable pub question_label : Rounds → ℕ → Rounds
  question_label rec field_len cur mem togo q =
      if ltb (length src) field_len
      then pure (failed_at (length src) togo)
      else if leb (length src) (cur + 1)
      then pure (failed_at (length src) togo)
      else do
        t ← reads (raw_at src (cur + 1) field_len)
        rec (cur + (field_len + 1)) (mem + (field_len + 1)) togo
            (record q { rec_str = join_label q.rec_str t })

  unfoldable pub question_round : Rounds → Rounds
  question_round rec cur mem togo q =
      if ltb cur (length src) && ltb 0 togo
      then (do
        field_len ← reads (get_at_u8 src cur)
        if leb (length src) (cur + field_len)
            then pure (failed_at mem togo)
            else if field_len == 0
            then question_end rec cur mem togo q
            else question_label rec field_len cur mem togo q)
      else pure (at_cursor mem togo)

  unfoldable pub question_rounds : ℕ → Rounds
  question_rounds zero cur mem togo q = out_of_fuel
  question_rounds (suc fuel) cur mem togo q = question_round (question_rounds fuel) cur mem togo q

  -- The outer loop, which a failure leaves.
  unfoldable pub next_question : (ℕ → ℕ → Loader Cursor) → Cursor → Loader Cursor
  next_question rec c = if c.failure then pure c else rec c.mem_counter c.togo

  unfoldable pub question_section : ℕ → ℕ → ℕ → Loader Cursor
  question_section zero mem togo = out_of_fuel
  question_section (suc rounds) mem togo =
      if ltb mem (length src) && ltb 0 togo
      then (do
        c ← question_rounds (suc (length src + togo)) mem mem togo new_question
        next_question (question_section rounds) c)
      else pure (at_cursor mem togo)
