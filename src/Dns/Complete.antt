-- ===== src/Dns/Complete.antt =====
-- src/inspect/dns.cpp: how DNS_Packet::load ends, and the packet of one that succeeds.
use smithproxy.Base.{
  ℕ, ◌+◌, ◌≤◌, ◌<◌, ◌≡◌, refl, ap, sym, inl, inr, List, [], Option, none, some, ltb, length,
  Bool-cases, get_elem?, ltb→lt, arith,
}
use mathlib.Core.Path.{subst}
use smithproxy.Base.Outcome.{out_of_range}
use smithproxy.Base.Bytes.{Buffers, IsBuffers, swap16}
use smithproxy.Dns.{Packet, Answer, new_packet}
use smithproxy.Dns.Loader.{Ending, done, raised, lost, starved, Returns, Returns-follow}
use smithproxy.Dns.Reads.{Returns-get_at_u16}
use smithproxy.Dns.Tally.{Spaced, Tally}
use smithproxy.Dns.Load.{header_size, load, load_body, load_header, header_field, caught}
use smithproxy.Dns.Sections.{Complete, Loads, load_sections-Returns}

module _ (B : Buffers) (laws : IsBuffers B) (src : List ℕ)
    (ends : (j c : ℕ) → get_elem? src j ≡ some c → 192 ≤ c → j + 1 < length src) where
  -- Nothing read yet.
  abbrev Fresh : Packet → Type 0
  Fresh p =
      (p.questions_list ≡ [])
      × (p.answers_list ≡ [])
      × (p.authorities_list ≡ [])
      × (p.additionals_list ≡ [])
      × (p.answer_ttl_idx ≡ [])

  Fresh-Tally :
      (p : Packet) → Fresh p → Tally (length src) p p.questions p.answers p.authorities 12 p
  Fresh-Tally p (e1, e2, e3, e4, e5) = record {
    counts = (refl, refl, refl, refl);
    questions_read = nothing_read p.questions_list p.questions e1;
    answers_read = nothing_read p.answers_list p.answers e2;
    authorities_read = nothing_read p.authorities_list p.authorities e3;
    no_additionals = ap (λ (xs : List Answer). length xs) e4;
    ttls = subst (λ (xs : List ℕ). Spaced (length src) 12 xs 12) (sym e5) (omega arith);
  }
    where
      nothing_read : {A : Type 0} (xs : List A) (k : ℕ) → xs ≡ [] → length xs + k ≡ k
      nothing_read xs k e = rw e (omega arith)

  header_field-Fresh :
      (i : ℕ) (put : ℕ → Packet → Packet) (p : Packet)
      → ((w : ℕ) → Fresh (put w p))
      → Returns (λ (_ : Unit {0}) s. Fresh s) (header_field B src i put p)
  unfolding header_field
  header_field-Fresh i put p h =
      Returns-get_at_u16 (λ _ s. Fresh s) B laws src i _ p λ w _. h (swap16 w)

  load_header-Fresh :
      (p : Packet) → Fresh p → Returns (λ (_ : Unit {0}) s. Fresh s) (load_header B src p)
  unfolding load_header
  load_header-Fresh p h = Returns-follow F F _ _ (header_field-Fresh 0 _ p λ _. h) λ _ p h.
      Returns-follow F F _ _ (header_field-Fresh 2 _ p λ _. h) λ _ p h.
        Returns-follow F F _ _ (header_field-Fresh 4 _ p λ _. h) λ _ p h.
          Returns-follow F F _ _ (header_field-Fresh 6 _ p λ _. h) λ _ p h.
            Returns-follow F F _ _ (header_field-Fresh 8 _ p λ _. h)
              λ _ p h. header_field-Fresh 10 _ p λ _. h
    where
      F : Unit {0} → Packet → Type 0
      F _ s = Fresh s

  load_body-Returns : (p : Packet) → Fresh p → Returns (Loads B laws src ends) (load_body B src p)
  unfolding load_body
  load_body-Returns p h = elim (Bool-cases (ltb header_size (length src))) [
    | inr e ↦ rw e tt
    | inl e ↦ rw e (
        Returns-follow (λ _ s. Fresh s) (Loads B laws src ends) _ _ (load_header-Fresh p h)
          λ _ s f.
            load_sections-Returns B laws src ends s (ltb→lt header_size (length src) e)
              (Fresh-Tally s f))
  ]

  caught-done :
      (m : Ending (Option ℕ))
      → Returns (Loads B laws src ends) m
      → (r : Option ℕ) × (q : Packet) × (caught m ≡ done r q) × Loads B laws src ends r q
  unfolding caught
  caught-done (done r q) h = (r, q, refl, h)
  caught-done (raised out_of_range q) h = (none, q, refl, tt)
  caught-done (raised e q) h = absurd (cc)
  caught-done lost h = elim h [ ]
  caught-done starved h = elim h [ ]

  pub load-done :
      (now : ℕ)
      → (r : Option ℕ) × (q : Packet) × (load B src now new_packet ≡ done r q)
        × Loads B laws src ends r q
  unfolding load
  load-done now =
      caught-done (load_body B src (record new_packet { loaded_at = now }))
        (load_body-Returns (record new_packet { loaded_at = now }) (refl, refl, refl, refl, refl))

  -- A load into a new packet returns, whatever the bytes of the message are, as long as every byte
  -- of 192 or more has a byte behind it: no loop of it runs on, and it reads nothing outside the
  -- buffer.
  pub load-returns :
      (now : ℕ) → (r : Option ℕ) × (q : Packet) × (load B src now new_packet ≡ done r q)
  load-returns now = let (r, q, e, _) = load-done now in (r, q, e)

  -- In a message in which every byte of 192 or more has a byte behind it, a new packet that is
  -- loaded has as many questions, answers, authorities and additional records as its header says
  -- then, the buffer is longer than a header, the position returned is not inside the header, and
  -- the four bytes of every recorded time to live lie behind the header, inside the buffer and
  -- before that position, in order and apart.
  pub load-Complete :
      (now mem : ℕ) (q : Packet)
      → load B src now new_packet ≡ done (some mem) q
      → (12 < length src) × (12 ≤ mem) × Complete (length src) q mem
  load-Complete now mem q e =
      let (r, t, f, h) = load-done now in subst (Returns (Loads B laws src ends)) e (rw f h)
