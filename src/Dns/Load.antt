-- ===== src/Dns/Load.antt =====
-- src/inspect/dns.cpp: DNS_Packet::load. Positions are `unsigned int` in the source; a DNS message
-- has at most 65535 bytes, so that they do not wrap.
use smithproxy.Base.{ℕ, not, ◌&&◌, List, Option, none, some, ◌==◌, ltb, if◌then◌else◌, length}
use smithproxy.Base.Outcome.{out_of_range}
use smithproxy.Base.Bytes.{Buffers, swap16}
use smithproxy.Dns.{Packet}
use smithproxy.Dns.Loader.{Loader, Ending, done, raised, lost, starved, ◌>>=◌, pure, reads, updates}
use smithproxy.Dns.Questions.{Cursor, failed_at, question_section}
use smithproxy.Dns.Records.{answer_section, authority_section, additional_section}

abbrev pub header_size : ℕ
header_size = 12

module _ (B : Buffers) (src : List ℕ) where
  open B use {get_at_u16}

  -- A field of the header, in network order.
  unfoldable pub header_field : ℕ → (ℕ → Packet → Packet) → Loader (Unit {0})
  header_field i put = do w ← reads (get_at_u16 src i); updates (put (swap16 w))

  unfoldable pub load_header : Loader (Unit {0})
  load_header = do
    _ ← header_field 0 (λ w p. record p { id = w })
    _ ← header_field 2 (λ w p. record p { flags = w })
    _ ← header_field 4 (λ w p. record p { questions = w })
    _ ← header_field 6 (λ w p. record p { answers = w })
    _ ← header_field 8 (λ w p. record p { authorities = w })
    header_field 10 (λ w p. record p { additionals = w })

  -- The sections behind the questions are not read after a failure.
  unfoldable pub load_answers : ℕ → Cursor → Loader Cursor
  load_answers togo c =
      if c.failure
      then pure (failed_at c.mem_counter togo)
      else answer_section B src togo c.mem_counter

  unfoldable pub load_authorities : ℕ → Cursor → Loader Cursor
  load_authorities togo c =
      if c.failure
      then pure (failed_at c.mem_counter togo)
      else authority_section B src togo c.mem_counter

  -- The number of additional records becomes that of the records kept.
  unfoldable pub load_additionals : ℕ → Cursor → Loader ℕ
  load_additionals togo c =
      if not c.failure && ltb 0 togo
      then (do
        mem ← additional_section B src togo c.mem_counter
        _ ← updates (λ p. record p { additionals = length p.additionals_list })
        pure mem)
      else pure c.mem_counter

  -- The sections, for the counts of the header.
  unfoldable pub load_sections : Packet → Loader (Option ℕ)
  load_sections header = do
    q ← question_section B src 2 header_size header.questions
    a ← load_answers header.answers q
    au ← load_authorities header.authorities a
    mem ← load_additionals header.additionals au
    if (q.togo == 0) && (a.togo == 0) && (au.togo == 0) then pure (some mem) else pure none

  unfoldable pub load_body : Loader (Option ℕ)
  load_body =
      if ltb header_size (length src)
      then (do _ ← load_header; header ← (λ p. done p p); load_sections header)
      else pure none

-- The handler of std::out_of_range.
unfoldable pub caught : Ending (Option ℕ) → Ending (Option ℕ)
caught (raised out_of_range p) = done none p
caught (raised e p) = raised e p
caught (done r p) = done r p
caught lost = lost
caught starved = starved

-- A buffer is loaded into a packet at a time: the position behind the message, or nothing.
unfoldable pub load : Buffers → List ℕ → ℕ → Loader (Option ℕ)
load B src now p = caught (load_body B src (record p { loaded_at = now }))
