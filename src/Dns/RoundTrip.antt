-- ===== src/Dns/RoundTrip.antt =====
-- src/inspect/dns.cpp: DNS_Packet::load reads what generate_dns_request writes.
use smithproxy.Base.{
  ℕ, ◌+◌, ◌*◌, ◌/◌, ◌%◌, ◌≤◌, ◌<◌, ◌≡◌, ◌≢◌, refl, ap, ◌∙◌, true, false, ◌&&◌, List, [], ◌∷◌, ◌++◌,
  Text, some, ltb, lt→ltb, length, length-append, All, arith,
}
use mathlib.Core.List.{append_assoc}
use smithproxy.Base.Bytes.{Buffers, IsBuffers, swap16}
use smithproxy.Fqdn.Labels.{join}
use smithproxy.Dns.{Packet, new_question, new_packet}
use smithproxy.Dns.Loader.{done}
use smithproxy.Dns.Questions.{at_cursor, join_label, push_question, next_question, question_section}
use smithproxy.Dns.Records.{answer_section, authority_section}
use smithproxy.Dns.Load.{
  load, load_body, load_header, header_field, load_sections, load_answers, load_authorities,
  load_additionals, caught,
}
use smithproxy.Dns.Request.{generate_dns_request, request_overhead}
use smithproxy.Dns.Encoded.{encode, Short, header_bytes, generate_dns_request-encodes}
use smithproxy.Dns.Decoded.{joined, question, labels-read, question_tail}

joined-dot :
    (c y : ℕ) (cs : Text) (ys : Text) (zs : List Text)
    → joined (c ∷ cs) (ys ∷ zs) ≡ (c ∷ cs) ++ 46 ∷ join (ys ∷ zs)
unfolding joined join join_label
joined-dot c y cs ys [] = refl
joined-dot c y cs ys (z ∷ zs) =
    joined-dot c y (cs ++ 46 ∷ ys) z zs ∙ append_assoc (c ∷ cs) (46 ∷ ys) (46 ∷ join (z ∷ zs))

-- The labels with dots between them are the name.
joined-join : (x : Text) (xs : List Text) → x ≢ [] → joined [] (x ∷ xs) ≡ join (x ∷ xs)
unfolding joined join join_label
joined-join [] xs n = absurd (n refl)
joined-join (c ∷ cs) [] n = refl
joined-join (c ∷ cs) (y ∷ ys) n = joined-dot c 0 cs y ys

fewer_labels : (xs : List Text) → length xs ≤ length (encode xs)
unfolding encode
fewer_labels [] = omega arith
fewer_labels (x ∷ xs) = omega (arith, fewer_labels xs, length-append x (encode xs))

-- The packet of a request.
abbrev pub asked_for : ℕ → ℕ → ℕ → Text → Packet
asked_for id t now name = record new_packet {
  id = id;
  flags = 256;
  questions = 1;
  questions_list = record { rec_str = name; rec_type = t; rec_class = 1 } ∷ [];
  loaded_at = now;
}

module _ (B : Buffers) (laws : IsBuffers B) (id t : ℕ) (id_small : id < 65536)
    (small : t < 65536) where
  message : List Text → List ℕ
  unfolding question_tail
  message xs = header_bytes id ++ (encode xs ++ question_tail t)

  abbrev headed : Packet → Packet
  headed p = record p {
    id = id;
    flags = 256;
    questions = 1;
    answers = 0;
    authorities = 0;
    additionals = 0;
  }

  header-read : (xs : List Text) (p : Packet) → load_header B (message xs) p ≡ done tt (headed p)
  unfolding load_header header_field message
  header-read xs p =
      rw
        (
          laws.reads_u16 (message xs) 0,
          laws.reads_u16 (message xs) 2,
          laws.reads_u16 (message xs) 4,
          laws.reads_u16 (message xs) 6,
          laws.reads_u16 (message xs) 8,
          laws.reads_u16 (message xs) 10,
        )
        (ap (λ (k : ℕ). done tt (record (headed p) { id = k })) twice)
    where
      twice : swap16 (swap16 id % 256 + swap16 id / 256 % 256 * 256) ≡ id
      twice = omega arith

  length-message : (xs : List Text) → length (message xs) ≡ 12 + (length (encode xs) + 5)
  unfolding message question_tail
  length-message xs =
      length-append (header_bytes id) (encode xs ++ question_tail t)
      ∙ ap (λ (n : ℕ). 12 + n) (length-append (encode xs) (question_tail t))

  message-long : (xs : List Text) → ltb 12 (length (message xs)) ≡ true
  message-long xs = lt→ltb 12 (length (message xs)) (omega (arith, length-message xs))

  section-read :
      (xs : List Text) (p : Packet)
      → All Short xs
      → question_section B (message xs) 2 12 1 p
        ≡ done (at_cursor (length (message xs)) 0) (push_question (question (joined [] xs) t) p)
  unfolding question_section next_question message question
  section-read xs p h =
      rw
        (
          starts,
          labels-read B laws t small xs (message xs) (header_bytes id) (length (message xs) + 1)
              new_question p h refl enough,
          ends,
        )
        refl
    where
      starts : (ltb 12 (length (message xs)) && ltb 0 1) ≡ true
      starts = rw (message-long xs) refl

      ends : (ltb (length (message xs)) (length (message xs)) && ltb 0 0) ≡ false
      ends = ground arith

      enough : length xs < length (message xs) + 1
      enough = omega (arith, length-message xs, fewer_labels xs)

  -- A request that generate_dns_request makes for a name of labels of less than 256 characters, with
  -- an id and a type of 16 bits, is loaded to its end, as one question for that name and type of the
  -- class 1, with that id.
  pub load-generate_dns_request :
      (sized : List ℕ) (now : ℕ) (x : Text) (xs : List Text)
      → All Short (x ∷ xs)
      → length sized ≡ length (46 ∷ join (x ∷ xs)) + request_overhead
      → load B (generate_dns_request sized id (join (x ∷ xs)) t) now new_packet
        ≡ done
            (some (length (generate_dns_request sized id (join (x ∷ xs)) t)))
            (asked_for id t now (join (x ∷ xs)))
  unfolding load caught load_body load_sections load_answers load_authorities load_additionals
      answer_section authority_section message push_question question question_tail
  load-generate_dns_request sized now x xs h e =
      let ((some_text, _), _) = h.0 in
      rw (generate_dns_request-encodes sized id t x xs h e) (
        rw
          (
            message-long (x ∷ xs),
            header-read (x ∷ xs) (record new_packet { loaded_at = now }),
            section-read (x ∷ xs) (headed (record new_packet { loaded_at = now })) h,
          )
          (ap (λ (n : Text). done (some (length (message (x ∷ xs)))) (asked_for id t now n))
            (joined-join x xs some_text)))
