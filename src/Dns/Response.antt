-- ===== src/Dns/Response.antt =====
-- src/inspect/dns.hpp and dns.cpp: what callers read off a loaded packet.
use Prim.Native.Char.{code}
use Prim.Native.String.{String}
use smithproxy.Base.{
  ℕ, ◌*◌, ◌+◌, ◌&&◌, ◌||◌, List, [], ◌∷◌, ◌++◌, Option, none, some, Text, ◌==◌, if◌then◌else◌,
  length, ◌≢◌, sym, ◌∙◌,
}
use mathlib.Core.List.{append_assoc}
use smithproxy.Cidr.{CidrLib}
use smithproxy.Dns.{
  Question, Answer, Packet, type_a, type_ns, type_cname, type_soa, type_txt, type_aaaa, type_opt,
}

-- The bytes of a string literal of the source.
abbrev pub ascii : String → Text
ascii String.[] = []
ascii (String.◌∷◌ c s) = code c ∷ ascii s

unfoldable pub dns_record_type_str : ℕ → Text
dns_record_type_str t =
    if t == type_a
    then ascii "A"
    else if t == type_ns
    then ascii "NS"
    else if t == type_aaaa
    then ascii "AAAA"
    else if t == type_cname
    then ascii "CNAME"
    else if t == type_txt
    then ascii "TXT"
    else if t == type_opt
    then ascii "OPT"
    else if t == type_soa
    then ascii "SOA"
    else ascii "unknown"

question_type_of : List Question → ℕ
question_type_of [] = 0
question_type_of (q ∷ qs) = q.rec_type

unfoldable pub question_type_0 : Packet → ℕ
unfolding question_type_of
question_type_0 p = question_type_of p.questions_list

question_class_of : List Question → ℕ
question_class_of [] = 0
question_class_of (q ∷ qs) = q.rec_class

unfoldable pub question_class_0 : Packet → ℕ
unfolding question_class_of
question_class_0 p = question_class_of p.questions_list

question_str_of : List Question → Text
question_str_of [] = ascii "? "
question_str_of (q ∷ qs) = dns_record_type_str q.rec_type ++ ascii ":" ++ q.rec_str

-- The key of the DNS cache.
unfoldable pub question_str_0 : Packet → Text
unfolding question_str_of dns_record_type_str
question_str_0 p = question_str_of p.questions_list

-- The key is never empty: something stands in front of the name.
pub question_str_0-not_nil : (p : Packet) → question_str_0 p ≢ []
unfolding question_str_0 question_str_of
question_str_0-not_nil p = of_questions p.questions_list
  where
    front : (t : Text) (c : ℕ) (s : Text) → t ++ c ∷ s ≢ []
    front [] c s e = cc
    front (x ∷ xs) c s e = cc

    of_questions : (qs : List Question) → question_str_of qs ≢ []
    of_questions [] e = cc
    of_questions (q ∷ qs) e =
        front (dns_record_type_str q.rec_type) 58 q.rec_str
          (sym (append_assoc (dns_record_type_str q.rec_type) (58 ∷ []) q.rec_str) ∙ e)

-- A little-endian load of the first four bytes, as `get_at<uint32_t>(0)` makes of four bytes.
unfoldable pub address_word : List ℕ → ℕ
address_word (a ∷ b ∷ c ∷ d ∷ rest) = a + b * 256 + c * 65536 + d * 16777216
address_word other = 0

module _ (lib : CidrLib) where
  open lib use {Cidr, cidr_from_inaddr, cidr_from_in6addr}

  unfoldable pub cidr : Answer → Option Cidr
  unfolding address_word
  cidr a =
      if (a.kind == type_a) && (length a.content == 4)
      then cidr_from_inaddr (address_word a.content)
      else if (a.kind == type_aaaa) && (length a.content == 16)
      then cidr_from_in6addr a.content
      else none

  address_list : List Answer → List (Option Cidr)
  unfolding cidr
  address_list [] = []
  address_list (x ∷ xs) =
      if (x.kind == type_a) || (x.kind == type_aaaa)
      then cidr x ∷ address_list xs
      else address_list xs

  unfoldable pub get_a_answers : Packet → List (Option Cidr)
  unfolding address_list
  get_a_answers p = address_list p.answers_list

first_ttl : List Answer → Option ℕ
first_ttl [] = none
first_ttl (x ∷ xs) = some x.ttl

unfoldable pub get_ttl : Packet → Option ℕ
unfolding first_ttl
get_ttl p = first_ttl p.answers_list
