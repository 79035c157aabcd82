-- ===== src/Dns/RecordsRan.antt =====
-- src/inspect/dns.cpp: how the answer, authority and additional sections of DNS_Packet::load end.
use smithproxy.Base.{
  ℕ, zero, suc, ◌+◌, ◌≤◌, ◌<◌, ◌≡◌, refl, inl, inr, false, ◌||◌, List, Option, none, some, ltb,
  ◌==◌, length, Bool-cases, if-keeps, get_elem?, ltb→lt, arith,
}
use smithproxy.Base.Bytes.{Buffers, IsBuffers, swap16}
use smithproxy.Dns.{Packet, type_soa, type_ns}
use smithproxy.Dns.Loader.{Loader, Returns, Returns-follow}
use smithproxy.Dns.Reads.{
  Returns-get_at_u16, Returns-get_at_u32, Returns-construct_qname, Returns-skip_qname,
}
use smithproxy.Dns.Questions.{Cursor}
use smithproxy.Dns.Records.{
  answer, answer_section, authority, authority_record, typed_authority, next_authority,
  authority_section, loop_max,
}
use smithproxy.Dns.Tally.{Tally, Tally-answer, Tally-authority, Ran}

module _ (B : Buffers) (laws : IsBuffers B) (src : List ℕ) (header : Packet)
    (ends : (j c : ℕ) → get_elem? src j ≡ some c → 192 ≤ c → j + 1 < length src) where
  -- What one answer does, with `q` questions left.
  answer-Returns :
      (q a i : ℕ) (p : Packet)
      → Tally (length src) header q (suc a) header.authorities i p
      → Returns
          (λ next t. (i ≤ next) × Tally (length src) header q a header.authorities next t)
          (answer B src i p)
  unfolding answer
  answer-Returns q a i p t = Returns-construct_qname Q src ends loop_max i _ p λ name.
      Returns-get_at_u16 Q B laws src (i + 2) _ p λ kind _.
        Returns-get_at_u16 Q B laws src (i + 4) _ p λ klass _.
          Returns-get_at_u32 Q B laws src (i + 6) _ _ λ ttl inside.
            Returns-get_at_u32 Q B laws src (i + 10) _ _ λ size _. (
              omega arith,
              Tally-answer _ _ _ q a _ i (i + 6) _ p (omega arith) inside (omega arith) t,
            )
    where
      Q : ℕ → Packet → Type 0
      Q next t = (i ≤ next) × Tally (length src) header q a header.authorities next t

  -- The answers are read up to `i`, all of them or to the end of the buffer.
  abbrev pub AnswersRan : ℕ → Cursor → Packet → Type 0
  AnswersRan q c p =
      (c.failure ≡ false)
      × (12 ≤ c.mem_counter)
      × Tally (length src) header q c.togo header.authorities c.mem_counter p

  pub answer_section-Ran :
      (q togo i : ℕ) (p : Packet)
      → 12 ≤ i
      → Tally (length src) header q togo header.authorities i p
      → Returns (AnswersRan q) (answer_section B src togo i p)
  unfolding answer_section
  answer_section-Ran q zero i p low t = (refl, low, t)
  answer_section-Ran q (suc togo) i p low t =
      if-keeps (λ (m : Loader Cursor). Returns (AnswersRan q) (m p)) (ltb i (length src)) _ _
        (Returns-follow _ (AnswersRan q) (answer B src i p) (answer_section B src togo)
          (answer-Returns q togo i p t)
          λ next s (up, u). answer_section-Ran q togo next s (omega arith) u)
        (refl, low, t)

  -- An authority, or the failure at a record of another type.
  abbrev AuthorityRan : ℕ → ℕ → ℕ → ℕ → Option ℕ → Packet → Type 0
  AuthorityRan q a au i none p = Unit {0}
  AuthorityRan q a au i (some next) p = (i ≤ next) × Tally (length src) header q a au next p

  authority-Returns :
      (q a au i : ℕ) (p : Packet)
      → i < length src
      → Tally (length src) header q a (suc au) i p
      → Returns (AuthorityRan q a au i) (authority B src i p)
  unfolding authority typed_authority authority_record
  authority-Returns q a au i p lt t = Returns-skip_qname Q src ends i _ p lt λ xi.
      Returns-get_at_u16 Q B laws src (i + xi) _ p λ pre_type _.
        if-keeps (λ (m : Loader (Option ℕ)). Returns Q (m p))
          ((swap16 pre_type == type_soa) || (swap16 pre_type == type_ns)) _ _
          (Returns-construct_qname Q src ends loop_max i _ p λ name.
            Returns-get_at_u16 Q B laws src (i + (xi + 2)) _ p λ klass _.
              Returns-get_at_u32 Q B laws src (i + (xi + 2) + 2) _ p λ ttl _.
                Returns-get_at_u16 Q B laws src (i + (xi + 2) + 6) _ p
                  λ size _. (omega arith, Tally-authority _ _ _ q a au i _ p (omega arith) t))
          tt
    where
      Q : Option ℕ → Packet → Type 0
      Q = AuthorityRan q a au i

  abbrev pub AuthoritiesRan : ℕ → ℕ → Cursor → Packet → Type 0
  AuthoritiesRan q a c p = Ran (λ togo mem. (12 ≤ mem) × Tally (length src) header q a togo mem p) c

  pub authority_section-Ran :
      (q a togo i : ℕ) (p : Packet)
      → 12 ≤ i
      → Tally (length src) header q a togo i p
      → Returns (AuthoritiesRan q a) (authority_section B src togo i p)
  unfolding authority_section next_authority
  authority_section-Ran q a zero i p low t = inr (refl, (low, t))
  authority_section-Ran q a (suc togo) i p low t = elim (Bool-cases (ltb i (length src))) [
    | inr e ↦ rw e (inr (refl, (low, t)))
    | inl e ↦ rw e (
        Returns-follow (AuthorityRan q a togo i) (AuthoritiesRan q a) (authority B src i p)
          (next_authority B src (authority_section B src togo) (suc togo))
          (authority-Returns q a togo i p (ltb→lt i (length src) e) t)
          (next (λ k s low u. authority_section-Ran q a togo k s low u)))
  ]
    where
      next :
          ((k : ℕ) (s : Packet)
            → 12 ≤ k
            → Tally (length src) header q a togo k s
            → Returns (AuthoritiesRan q a) (authority_section B src togo k s))
          → (o : Option ℕ) (s : Packet) → AuthorityRan q a togo i o s
          → Returns
              (AuthoritiesRan q a)
              (next_authority B src (authority_section B src togo) (suc togo) o s)
      next rec none s h = inl (refl, omega arith)
      next rec (some k) s (up, u) = rec k s (omega arith) u
