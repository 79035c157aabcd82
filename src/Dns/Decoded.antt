-- ===== src/Dns/Decoded.antt =====
-- src/inspect/dns.cpp: the question of a request, read back by DNS_Packet::load.
use smithproxy.Base.{
  ℕ, zero, suc, ◌+◌, ◌-◌, ◌*◌, ◌/◌, ◌%◌, ◌<◌, ◌≡◌, ◌≢◌, refl, sym, ap, ◌∙◌, true, false, ◌&&◌, List,
  [], ◌∷◌, ◌++◌, Text, ◌==◌, ltb, leb, if_yes, length, length-append, take, take-append,
  drop-append, get_elem?, get_elem?-append_right, All, arith,
}
use mathlib.Core.List.{append_assoc}
use smithproxy.Base.Outcome.{value}
use smithproxy.Base.Bytes.{
  Buffers, IsBuffers, byte_at, word_at, word_at-append, raw_at, swap16, bytes16, swap16-swap16,
}
use smithproxy.Dns.{Packet, Question}
use smithproxy.Dns.Loader.{done}
use smithproxy.Dns.Questions.{
  at_cursor, join_label, push_question, question_end, question_label, question_round,
  question_rounds,
}
use smithproxy.Dns.Encoded.{encode, Short}

byte_at-append : (q ys : List ℕ) (y i : ℕ) → i ≡ length q → byte_at (q ++ y ∷ ys) i ≡ value y
byte_at-append q ys y i e =
    rw
      (
        ap (get_elem? (q ++ y ∷ ys)) (e ∙ zero_more (length q))
            ∙ get_elem?-append_right q (y ∷ ys) 0,
        byte_at,
      )
      refl
  where
    zero_more : (n : ℕ) → n ≡ n + 0
    zero_more n = omega arith

raw_at-append :
    (q x ys : List ℕ) (i : ℕ) → i ≡ length q → raw_at (q ++ (x ++ ys)) i (length x) ≡ value x
raw_at-append q x ys i e =
    rw (e, raw_at)
      (if_yes _ _ _ inside
        ∙ ap value (ap (take (length x)) (drop-append q (x ++ ys)) ∙ take-append x ys))
  where
    inside : leb (length q + length x) (length (q ++ (x ++ ys))) ≡ true
    inside = ground (arith, length-append q (x ++ ys), length-append x ys)

-- The name after its labels.
unfoldable pub joined : Text → List Text → Text
joined s [] = s
joined s (x ∷ xs) = joined (join_label s x) xs

unfoldable pub question : Text → ℕ → Question
question s t = record { rec_str = s; rec_type = t; rec_class = 1 }

-- The end of the question, of a type and the class 1.
unfoldable pub question_tail : ℕ → List ℕ
question_tail t = 0 ∷ (bytes16 (swap16 t) ++ 0 ∷ 1 ∷ [])

module _ (B : Buffers) (laws : IsBuffers B) (t : ℕ) (small : t < 65536) where
  open B use {get_at_u8, get_at_u16}

  -- The zero label ends the only question.
  end-read :
      (src d : List ℕ) (fuel : ℕ) (q : Question) (p : Packet)
      → src ≡ d ++ question_tail t
      → question_rounds B src (suc (suc fuel)) (length d) (length d) 1 q p
        ≡ done (at_cursor (length d + 5) 0) (push_question (question q.rec_str t) p)
  unfolding question_rounds question_round question_end question_tail question
  end-read src d fuel q p e =
      rw
        (
          here,
          laws.reads_u8 src (length d),
          first,
          inside,
          fits,
          laws.reads_u16 src (length d + 1),
          kind,
          laws.reads_u16 src (length d + 3),
          klass,
          over,
        )
        (ap
          (λ (k : ℕ).
            done (at_cursor (length d + 5) 0)
              (push_question (record { rec_str = q.rec_str; rec_type = k; rec_class = 1 }) p))
          (swap16-swap16 t small))
    where
      count : length src ≡ length d + 5
      count = ap (length) e ∙ length-append d (question_tail t)

      here : (ltb (length d) (length src) && ltb 0 1) ≡ true
      here = ground (arith, count)

      first : byte_at src (length d) ≡ value 0
      first = ap (λ (b : List ℕ). byte_at b (length d)) e ∙ byte_at-append d _ 0 (length d) refl

      inside : leb (length src) (length d + 0) ≡ false
      inside = ground (arith, count)

      fits : ltb (length src) (length d + 5) ≡ false
      fits = ground (arith, count)

      kind : word_at src (length d + 1) ≡ value (swap16 t)
      kind =
          ap (λ (b : List ℕ). word_at b (length d + 1)) (e ∙ sym (append_assoc d (0 ∷ []) _))
          ∙ word_at-append (d ++ 0 ∷ []) (0 ∷ 1 ∷ []) (length d + 1) (swap16 t % 256)
              (swap16 t / 256 % 256) (sym (length-append d (0 ∷ [])))
          ∙ ap value whole
        where
          whole : swap16 t % 256 + swap16 t / 256 % 256 * 256 ≡ swap16 t
          whole = omega arith

      klass : word_at src (length d + 3) ≡ value 256
      klass =
          ap (λ (b : List ℕ). word_at b (length d + 3))
            (e ∙ sym (append_assoc d (0 ∷ bytes16 (swap16 t)) _))
          ∙ word_at-append (d ++ 0 ∷ bytes16 (swap16 t)) [] (length d + 3) 0 1
              (sym (length-append d (0 ∷ bytes16 (swap16 t))))

      over : (ltb (length d) (length src) && ltb 0 (1 - 1)) ≡ false
      over = ground (arith, count)

  -- The labels before it, each of which moves on by its length and one.
  pub labels-read :
      (xs : List Text) (src d : List ℕ) (fuel : ℕ) (q : Question) (p : Packet)
      → All Short xs
      → src ≡ d ++ (encode xs ++ question_tail t)
      → length xs < fuel
      → question_rounds B src (suc fuel) (length d) (length d) 1 q p
        ≡ done (at_cursor (length src) 0) (push_question (question (joined q.rec_str xs) t) p)
  unfolding question_rounds question_round question_label question_tail question joined encode
  labels-read [] src d zero q p h e f = absurd (omega arith)
  labels-read [] src d (suc fuel) q p h e f =
      end-read src d fuel q p e
      ∙ ap (λ (n : ℕ). done (at_cursor n 0) (push_question (question q.rec_str t) p))
          (sym (ap length e ∙ length-append d (question_tail t)))
  labels-read (x ∷ xs) src d zero q p h e f = absurd (omega arith)
  labels-read (x ∷ xs) src d (suc fuel) q p (((some_text, nodot), short), h) e f =
      rw
        (
          here,
          laws.reads_u8 src (length d),
          first,
          inside,
          positive,
          short_enough,
          next_inside,
          text,
        )
        (ap
            (λ (n : ℕ).
              question_rounds B src (suc fuel) n n 1 (record q { rec_str = join_label q.rec_str x })
                p)
            (sym moved)
          ∙ labels-read xs src (d ++ length x ∷ x) fuel
              (record q { rec_str = join_label q.rec_str x }) p h whole (omega arith))
    where
      after : List ℕ
      after = encode xs ++ question_tail t

      count : length src ≡ length d + (1 + (length x + (length (encode xs) + 5)))
      count =
          ap (length) e
          ∙ omega (
            arith,
            length-append d (length x ∷ (x ++ encode xs) ++ question_tail t),
            length-append x (encode xs),
            length-append (x ++ encode xs) (question_tail t),
          )

      whole : src ≡ (d ++ length x ∷ x) ++ after
      whole =
          e
          ∙ ap (λ (b : List ℕ). d ++ length x ∷ b) (append_assoc x (encode xs) (question_tail t))
          ∙ sym (append_assoc d (length x ∷ x) after)

      moved : length (d ++ length x ∷ x) ≡ length d + (length x + 1)
      moved = omega (arith, length-append d (length x ∷ x))

      here : (ltb (length d) (length src) && ltb 0 1) ≡ true
      here = ground (arith, count)

      first : byte_at src (length d) ≡ value (length x)
      first =
          ap (λ (b : List ℕ). byte_at b (length d)) e
          ∙ byte_at-append d _ (length x) (length d) refl

      inside : leb (length src) (length d + length x) ≡ false
      inside = ground (arith, count)

      positive : (length x == 0) ≡ false
      positive = not_zero x some_text
        where
          not_zero : (x : Text) → x ≢ [] → (length x == 0) ≡ false
          not_zero [] n = absurd (n refl)
          not_zero (c ∷ cs) n = ground arith

      short_enough : ltb (length src) (length x) ≡ false
      short_enough = ground (arith, count)

      next_inside : leb (length src) (length d + 1) ≡ false
      next_inside = ground (arith, count)

      text : raw_at src (length d + 1) (length x) ≡ value x
      text =
          ap (λ (b : List ℕ). raw_at b (length d + 1) (length x))
            (whole
              ∙ append_assoc d (length x ∷ x) after
              ∙ sym (append_assoc d (length x ∷ []) (x ++ after)))
          ∙ raw_at-append (d ++ length x ∷ []) x after (length d + 1)
              (sym (length-append d (length x ∷ [])))
