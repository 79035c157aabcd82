-- ===== src/Dns/Sections.antt =====
-- src/inspect/dns.cpp: how the sections of DNS_Packet::load follow one another.
use smithproxy.Base.{
  ℕ, zero, suc, ◌+◌, ◌≤◌, ◌<◌, ◌≡◌, refl, ◌⊎◌, inl, inr, true, false, ◌&&◌, List, Option, none,
  some, ltb, ◌==◌, if◌then◌else◌, length, Bool-cases, get_elem?, arith,
}
use smithproxy.Base.Bytes.{Buffers, IsBuffers}
use smithproxy.Dns.{Packet}
use smithproxy.Dns.Loader.{pure, Returns, Returns-follow, Returns-weaken}
use smithproxy.Dns.Questions.{Cursor}
use smithproxy.Dns.Records.{answer_section, authority_section, additional_section}
use smithproxy.Dns.Tally.{Spaced, Tally}
use smithproxy.Dns.QuestionsRan.{QuestionsRan, question_section-Ran}
use smithproxy.Dns.RecordsRan.{
  AnswersRan, answer_section-Ran, AuthoritiesRan, authority_section-Ran,
}
use smithproxy.Dns.AdditionalsRan.{Kept, Tally-Kept, additional_section-Ran}
use smithproxy.Dns.Load.{load_sections, load_answers, load_authorities, load_additionals}

-- All sections are as long as the header says, and the four bytes of every time to live lie behind
-- the header, inside the first `n` bytes and before the position `mem`, in order and apart.
abbrev pub Complete : ℕ → Packet → ℕ → Type 0
Complete n p mem =
    (length p.questions_list ≡ p.questions)
    × (length p.answers_list ≡ p.answers)
    × (length p.authorities_list ≡ p.authorities)
    × (length p.additionals_list ≡ p.additionals)
    × Spaced n 12 p.answer_ttl_idx mem

module _ (B : Buffers) (laws : IsBuffers B) (src : List ℕ)
    (ends : (j c : ℕ) → get_elem? src j ≡ some c → 192 ≤ c → j + 1 < length src) where
  -- Of a successful load.
  abbrev pub Loads : Option ℕ → Packet → Type 0
  Loads none p = Unit {0}
  Loads (some mem) p = (12 < length src) × (12 ≤ mem) × Complete (length src) p mem

  abbrev Finish : ℕ → ℕ → ℕ → ℕ → Packet → Type 0
  Finish q a au mem p =
      (12 ≤ mem)
      × (length p.questions_list + q ≡ p.questions)
      × (length p.answers_list + a ≡ p.answers)
      × (length p.authorities_list + au ≡ p.authorities)
      × Spaced (length src) 12 p.answer_ttl_idx mem
      × (length p.additionals_list ≡ p.additionals)

  -- A section that left something ends the load without a result.
  finish :
      12 < length src
      → (q a au mem : ℕ) (p : Packet) → ((q ≡ 0) → (a ≡ 0) → (au ≡ 0) → Finish q a au mem p)
      → Returns Loads ((if (q == 0) && (a == 0) && (au == 0) then pure (some mem) else pure none) p)
  finish long (suc q) a au mem p f = rw (no q) tt
    where
      no : (k : ℕ) → (suc k == 0) ≡ false
      no k = ground arith
  finish long zero (suc a) au mem p f = rw (no a) tt
    where
      no : (k : ℕ) → (suc k == 0) ≡ false
      no k = ground arith
  finish long zero zero (suc au) mem p f = rw (no au) tt
    where
      no : (k : ℕ) → (suc k == 0) ≡ false
      no k = ground arith
  finish long zero zero zero mem p f =
      let (low, k1, k2, k3, s, k4) = f refl refl refl in
      (long, low, (omega (arith, k1), omega (arith, k2), omega (arith, k3), k4, s))

  Kept-Finish :
      (header : Packet) (q a au mem : ℕ) (p : Packet)
      → 12 ≤ mem
      → Kept (length src) header q a au mem p
      → Finish q a au mem (record p { additionals = length p.additionals_list })
  Kept-Finish header q a au mem p low ((e1, e2, e3, _), k1, k2, k3, s) =
      (low, omega (arith, e1, k1), omega (arith, e2, k2), omega (arith, e3, k3), s, refl)

  -- A section before this one failed with `togo` to go, or this one did what it does.
  abbrev Stage : ℕ → (Cursor → Packet → Type 0) → Cursor → Packet → Type 0
  Stage togo P c p = ((0 < togo) × (c.failure ≡ true)) ⊎ P c p

  load_answers-Ran :
      (header : Packet) (c : Cursor) (p : Packet)
      → QuestionsRan B laws src header c p
      → Returns
          (Stage c.togo (AnswersRan B laws src header ends c.togo))
          (load_answers B src header.answers c p)
  unfolding load_answers
  load_answers-Ran header c p (inl (e, h)) = rw e (inl (h, refl))
  load_answers-Ran header c p (inr (e, (low, _, t))) = rw e (
      Returns-weaken _ _ (answer_section B src header.answers c.mem_counter p)
        (answer_section-Ran B laws src header ends c.togo header.answers c.mem_counter p low t)
        λ a s h. inr h)

  load_authorities-Ran :
      (header : Packet) (q : ℕ) (a : Cursor) (p : Packet)
      → Stage q (AnswersRan B laws src header ends q) a p
      → Returns
          (Stage q (AuthoritiesRan B laws src header ends q a.togo))
          (load_authorities B src header.authorities a p)
  unfolding load_authorities
  load_authorities-Ran header q a p (inl (h, e)) = rw e (inl (h, refl))
  load_authorities-Ran header q a p (inr (e, low, t)) = rw e (
      Returns-weaken _ _ (authority_section B src header.authorities a.mem_counter p)
        (authority_section-Ran B laws src header ends q a.togo header.authorities a.mem_counter p
          low t)
        λ au s h. inr h)

  load_additionals-Ran :
      (header : Packet) (q a : ℕ) (au : Cursor) (p : Packet)
      → Stage q (AuthoritiesRan B laws src header ends q a) au p
      → Returns
          (λ mem s. (q ≡ 0) → (a ≡ 0) → (au.togo ≡ 0) → Finish q a au.togo mem s)
          (load_additionals B src header.additionals au p)
  unfolding load_additionals
  load_additionals-Ran header q a au p (inl (h, e)) = rw e λ z _ _. absurd (omega arith)
  load_additionals-Ran header q a au p (inr (inl (e, h))) = rw e λ _ _ z. absurd (omega arith)
  load_additionals-Ran header q a au p (inr (inr (e, (low, t)))) =
      elim (Bool-cases (ltb 0 header.additionals)) [
        | inl some_left ↦
            rw (e, some_left)
              (Returns-follow _ _ (additional_section B src header.additionals au.mem_counter p) _
                (additional_section-Ran B laws src header q a au.togo ends header.additionals
                  au.mem_counter p (Tally-Kept _ header q a au.togo au.mem_counter p t))
                λ mem s (up, k) _ _ _. Kept-Finish header q a au.togo mem s (omega arith) k)
        | inr none_left ↦
            rw (e, none_left)
              λ _ _ _.
                let (e1, e2, e3, e4) = t.counts in
                (
                  low,
                  omega (arith, e1, t.questions_read),
                  omega (arith, e2, t.answers_read),
                  omega (arith, e3, t.authorities_read),
                  t.ttls,
                  omega (arith, nothing header.additionals none_left, t.no_additionals, e4),
                )
      ]
    where
      nothing : (k : ℕ) → ltb 0 k ≡ false → k ≡ 0
      nothing k e = ground arith

  pub load_sections-Returns :
      (header : Packet)
      → 12 < length src
      → Tally (length src) header header.questions header.answers header.authorities 12 header
      → Returns Loads (load_sections B src header header)
  unfolding load_sections
  load_sections-Returns header long t =
      Returns-follow _ Loads _ _
        (question_section-Ran B laws src header 12 header.questions header (omega arith) long t)
        λ q s hq. Returns-follow _ Loads _ _ (load_answers-Ran header q s hq) λ a s ha.
          Returns-follow _ Loads _ _ (load_authorities-Ran header q.togo a s ha) λ au s hau.
            Returns-follow _ Loads _ _ (load_additionals-Ran header q.togo a.togo au s hau)
              λ mem s. finish long q.togo a.togo au.togo mem s
