-- ===== src/Examples/Packets.antt =====
-- A DNS request and a response that are loaded.
use smithproxy.Base.{
  ℕ, suc, zero, true, false, Bool, ◌&&◌, ◌||◌, ◌≡◌, refl, ◌≤◌, ◌<◌, ◌+◌, List, [], ◌∷◌, Option,
  some, length, get_elem?, leb, replicate, arith,
}
use mathlib.Core.Option.{some-injective}
use smithproxy.Base.Bytes.{plain_buffers, plain_buffers-IsBuffers}
use smithproxy.Dns.{Packet, new_packet}
use smithproxy.Dns.Loader.{done}
use smithproxy.Dns.Names.{
  construct_qname, name_step, plain_label, compressed_label, part_size, dotted,
}
use smithproxy.Dns.Questions.{
  question_section, question_rounds, question_round, question_label, question_end, next_question,
  join_label, push_question,
}
use smithproxy.Dns.Records.{
  answer_section, answer, authority_section, push_answer, push_ttl_idx, record_data,
}
use smithproxy.Dns.Load.{
  load, caught, load_body, load_header, header_field, load_sections, load_answers, load_authorities,
  load_additionals,
}
use smithproxy.Dns.Sections.{Complete}
use smithproxy.Fqdn.Labels.{join}
use smithproxy.Dns.Request.{generate_dns_request}
use smithproxy.Dns.RoundTrip.{asked_for, load-generate_dns_request}
use smithproxy.Dns.Complete.{load-returns, load-Complete}

-- A test that every byte of 192 or more has one behind it.
abbrev not_last : ℕ → List ℕ → Bool
not_last c [] = false
not_last c (d ∷ ds) = true

abbrev pointers_end : List ℕ → Bool
pointers_end [] = true
pointers_end (c ∷ cs) = (leb c 191 || not_last c cs) && pointers_end cs

pointers_end_sound :
    (src : List ℕ)
    → pointers_end src ≡ true
    → (j c : ℕ) → get_elem? src j ≡ some c
    → 192 ≤ c
    → j + 1 < length src
pointers_end_sound [] e j c g h = absurd (cc)
pointers_end_sound (d ∷ ds) e zero c g h = last d ds c (some-injective d c g) e h
  where
    last :
        (d : ℕ) (ds : List ℕ) (c : ℕ)
        → d ≡ c
        → pointers_end (d ∷ ds) ≡ true
        → 192 ≤ c
        → 0 + 1 < suc (length ds)
    last d [] c f e h = ground arith
    last d (x ∷ xs) c f e h = omega arith
pointers_end_sound (d ∷ ds) e (suc j) c g h = ground (arith, pointers_end_sound ds (rest e) j c g h)
  where
    rest : pointers_end (d ∷ ds) ≡ true → pointers_end ds ≡ true
    rest e = ground arith

-- The answer 1.2.3.4 for the name "ab", for 256 seconds.
abbrev pub response : List ℕ
response =
    171 ∷ 205 ∷ 129 ∷ 128 ∷ 0 ∷ 1 ∷ 0 ∷ 1 ∷ 0 ∷ 0 ∷ 0 ∷ 0 ∷ 2 ∷ 97 ∷ 98 ∷ 0 ∷ 0 ∷ 1 ∷ 0 ∷ 1 ∷ 192
    ∷ 12 ∷ 0 ∷ 1 ∷ 0 ∷ 1 ∷ 0 ∷ 0 ∷ 1 ∷ 0 ∷ 0 ∷ 4 ∷ 1 ∷ 2 ∷ 3 ∷ 4 ∷ []

pub response_ends : (j c : ℕ) → get_elem? response j ≡ some c → 192 ≤ c → j + 1 < length response
response_ends = pointers_end_sound response refl

load-returns_example :
    (r : Option ℕ) × (q : Packet) × (load plain_buffers response 7 new_packet ≡ done r q)
load-returns_example = load-returns plain_buffers plain_buffers-IsBuffers response response_ends 7

abbrev pub resolved : Packet
resolved = record {
  id = 43981;
  flags = 33152;
  questions = 1;
  answers = 1;
  authorities = 0;
  additionals = 0;
  questions_list = record { rec_str = 97 ∷ 98 ∷ []; rec_type = 1; rec_class = 1 } ∷ [];
  answers_list =
      record {
        qname = 97 ∷ 98 ∷ [];
        name = 0;
        kind = 1;
        klass = 1;
        ttl = 256;
        datalen = 4;
        content = 1 ∷ 2 ∷ 3 ∷ 4 ∷ [];
      }
      ∷ [];
  authorities_list = [];
  additionals_list = [];
  answer_ttl_idx = 26 ∷ [];
  loaded_at = 7;
}

pub response_loads : load plain_buffers response 7 new_packet ≡ done (some 36) resolved
unfolding load caught load_body load_header header_field load_sections load_answers load_authorities
    load_additionals question_section question_rounds question_round question_label question_end
    next_question join_label push_question answer_section answer authority_section push_answer
    push_ttl_idx record_data construct_qname name_step plain_label compressed_label part_size dotted
response_loads = refl

load-Complete_example : (12 < length response) × (12 ≤ 36) × Complete (length response) resolved 36
load-Complete_example =
    load-Complete plain_buffers plain_buffers-IsBuffers response response_ends 7 36 resolved
      response_loads

-- The question for the address of "ab".
abbrev pub request : List ℕ
request = 171 ∷ 205 ∷ 1 ∷ 0 ∷ 0 ∷ 1 ∷ 0 ∷ 0 ∷ 0 ∷ 0 ∷ 0 ∷ 0 ∷ 2 ∷ 97 ∷ 98 ∷ 0 ∷ 0 ∷ 1 ∷ 0 ∷ 1 ∷ []

pub request_ends : (j c : ℕ) → get_elem? request j ≡ some c → 192 ≤ c → j + 1 < length request
request_ends = pointers_end_sound request refl

abbrev pub asked : Packet
asked = record resolved { flags = 256; answers = 0; answers_list = []; answer_ttl_idx = [] }

pub request_loads : load plain_buffers request 7 new_packet ≡ done (some 20) asked
unfolding load caught load_body load_header header_field load_sections load_answers load_authorities
    load_additionals question_section question_rounds question_round question_label question_end
    next_question join_label push_question answer_section answer authority_section push_answer
    push_ttl_idx record_data construct_qname name_step plain_label compressed_label part_size dotted
request_loads = refl

-- A buffer of the size of the request for "ab".
abbrev sized : List ℕ
sized = replicate 20 7

load-generate_dns_request_example :
    load plain_buffers (generate_dns_request sized 43981 (97 ∷ 98 ∷ []) 1) 7 new_packet
    ≡ done
        (some (length (generate_dns_request sized 43981 (97 ∷ 98 ∷ []) 1)))
        (asked_for 43981 1 7 (97 ∷ 98 ∷ []))
unfolding join
load-generate_dns_request_example =
    load-generate_dns_request plain_buffers plain_buffers-IsBuffers 43981 1 (omega arith)
      (omega arith) sized 7 (97 ∷ 98 ∷ []) []
      ((((λ e. cc), ((λ e. omega (arith, e)), ((λ e. omega (arith, e)), tt))), omega arith), tt)
      refl
