-- ===== src/Dns/Tally.antt =====
-- src/inspect/dns.cpp: what DNS_Packet::load keeps true of the packet while it reads the sections.
use smithproxy.Base.{
  ℕ, suc, ◌+◌, ◌≤◌, ◌<◌, ◌≡◌, ◌⊎◌, true, false, List, [], ◌∷◌, ◌++◌, length, length-append, arith,
}
use smithproxy.Dns.{Packet, Question, Answer}
use smithproxy.Dns.Questions.{Cursor, push_question}
use smithproxy.Dns.Records.{push_answer, push_authority, push_ttl_idx}

-- Positions of four-byte numbers from `lo` to `hi`, in order, none over another, all inside the
-- first `n` bytes.
abbrev pub Spaced : ℕ → ℕ → List ℕ → ℕ → Type 0
Spaced n lo [] hi = lo ≤ hi
Spaced n lo (i ∷ is) hi = (lo ≤ i) × (i + 4 ≤ n) × Spaced n (i + 4) is hi

pub Spaced-up :
    (n lo : ℕ) (is : List ℕ) (hi top : ℕ) → hi ≤ top → Spaced n lo is hi → Spaced n lo is top
Spaced-up n lo [] hi top h s = omega arith
Spaced-up n lo (i ∷ is) hi top h s = (s.0, s.1, Spaced-up n (i + 4) is hi top h s.2)

pub Spaced-append :
    (n lo : ℕ) (is : List ℕ) (mid i hi : ℕ)
    → mid ≤ i
    → i + 4 ≤ n
    → i + 4 ≤ hi
    → Spaced n lo is mid
    → Spaced n lo (is ++ i ∷ []) hi
Spaced-append n lo [] mid i hi h g k s = (omega arith, g, k)
Spaced-append n lo (j ∷ is) mid i hi h g k s =
    (s.0, s.1, Spaced-append n (j + 4) is mid i hi h g k s.2)

-- The counts are still those of the header.
abbrev pub SameCounts : Packet → Packet → Type 0
SameCounts header p =
    (p.questions ≡ header.questions)
    × (p.answers ≡ header.answers)
    × (p.authorities ≡ header.authorities)
    × (p.additionals ≡ header.additionals)

-- What is read and what is still to go, of the questions, the answers and the authorities.
pub record Tally (n : ℕ) (header : Packet) (q a au mem : ℕ) (p : Packet) : Type 0 where
  pub counts : SameCounts header p
  pub questions_read : length p.questions_list + q ≡ header.questions
  pub answers_read : length p.answers_list + a ≡ header.answers
  pub authorities_read : length p.authorities_list + au ≡ header.authorities
  pub no_additionals : length p.additionals_list ≡ 0
  pub ttls : Spaced n 12 p.answer_ttl_idx mem

module _ (n : ℕ) (header : Packet) where
  length-push :
      {A : Type 0} (xs : List A) (x : A) (k m : ℕ)
      → length xs + suc k ≡ m
      → length (xs ++ x ∷ []) + k ≡ m
  length-push xs x k m h = omega (arith, length-append xs (x ∷ []))

  pub Tally-up :
      (q a au mem top : ℕ) (p : Packet)
      → mem ≤ top
      → Tally n header q a au mem p
      → Tally n header q a au top p
  Tally-up q a au mem top p h t = record {
    counts = t.counts;
    questions_read = t.questions_read;
    answers_read = t.answers_read;
    authorities_read = t.authorities_read;
    no_additionals = t.no_additionals;
    ttls = Spaced-up n 12 p.answer_ttl_idx mem top h t.ttls;
  }

  pub Tally-question :
      (x : Question) (q a au mem : ℕ) (p : Packet)
      → Tally n header (suc q) a au mem p
      → Tally n header q a au mem (push_question x p)
  unfolding push_question
  Tally-question x q a au mem p t = record {
    counts = t.counts;
    questions_read = length-push p.questions_list x q header.questions t.questions_read;
    answers_read = t.answers_read;
    authorities_read = t.authorities_read;
    no_additionals = t.no_additionals;
    ttls = t.ttls;
  }

  -- An answer whose time to live stands at `i`.
  pub Tally-answer :
      (x : Answer) (q a au mem i top : ℕ) (p : Packet)
      → mem ≤ i
      → i + 4 ≤ n
      → i + 4 ≤ top
      → Tally n header q (suc a) au mem p
      → Tally n header q a au top (push_answer x (push_ttl_idx i p))
  unfolding push_answer push_ttl_idx
  Tally-answer x q a au mem i top p h g k t = record {
    counts = t.counts;
    questions_read = t.questions_read;
    answers_read = length-push p.answers_list x a header.answers t.answers_read;
    authorities_read = t.authorities_read;
    no_additionals = t.no_additionals;
    ttls = Spaced-append n 12 p.answer_ttl_idx mem i top h g k t.ttls;
  }

  pub Tally-authority :
      (x : Answer) (q a au mem top : ℕ) (p : Packet)
      → mem ≤ top
      → Tally n header q a (suc au) mem p
      → Tally n header q a au top (push_authority x p)
  unfolding push_authority
  Tally-authority x q a au mem top p h t = record {
    counts = t.counts;
    questions_read = t.questions_read;
    answers_read = t.answers_read;
    authorities_read = length-push p.authorities_list x au header.authorities t.authorities_read;
    no_additionals = t.no_additionals;
    ttls = Spaced-up n 12 p.answer_ttl_idx mem top h t.ttls;
  }

-- A section failed with something to go, or ended without a failure where `I` holds.
abbrev pub Ran : (ℕ → ℕ → Type 0) → Cursor → Type 0
Ran I c = ((c.failure ≡ true) × (0 < c.togo)) ⊎ ((c.failure ≡ false) × I c.togo c.mem_counter)
