-- ===== src/Dns.antt =====
-- src/inspect/dns.hpp: the record types and the data of a DNS packet.
pub mod Names
pub mod Response
pub mod Loader
pub mod Reads
pub mod Questions
pub mod Records
pub mod Tally
pub mod QuestionsRan
pub mod RecordsRan
pub mod AdditionalsRan
pub mod Load
pub mod Sections
pub mod Complete
pub mod Request
pub mod Encoded
pub mod Decoded
pub mod RoundTrip
use smithproxy.Base.{ℕ, List, [], Text}

abbrev pub type_a : ℕ
type_a = 1

abbrev pub type_ns : ℕ
type_ns = 2

abbrev pub type_cname : ℕ
type_cname = 5

abbrev pub type_soa : ℕ
type_soa = 6

abbrev pub type_txt : ℕ
type_txt = 16

abbrev pub type_aaaa : ℕ
type_aaaa = 28

abbrev pub type_opt : ℕ
type_opt = 41

pub record Question : Type 0 where
  pub rec_str : Text
  pub rec_type : ℕ
  pub rec_class : ℕ

pub record Answer : Type 0 where
  pub qname : Text
  pub name : ℕ
  pub kind : ℕ
  pub klass : ℕ
  pub ttl : ℕ
  pub datalen : ℕ
  pub content : List ℕ

pub record Packet : Type 0 where
  pub id : ℕ
  pub flags : ℕ
  pub questions : ℕ
  pub answers : ℕ
  pub authorities : ℕ
  pub additionals : ℕ
  pub questions_list : List Question
  pub answers_list : List Answer
  pub authorities_list : List Answer
  pub additionals_list : List Answer
  pub answer_ttl_idx : List ℕ
  pub loaded_at : ℕ

-- A packet as its constructor leaves it.
abbrev pub new_packet : Packet
new_packet = record {
  id = 0;
  flags = 0;
  questions = 0;
  answers = 0;
  authorities = 0;
  additionals = 0;
  questions_list = [];
  answers_list = [];
  authorities_list = [];
  additionals_list = [];
  answer_ttl_idx = [];
  loaded_at = 0;
}

abbrev pub new_question : Question
new_question = record { rec_str = []; rec_type = 0; rec_class = 0 }

abbrev pub new_answer : Answer
new_answer = record {
  qname = [];
  name = 0;
  kind = 0;
  klass = 0;
  ttl = 0;
  datalen = 0;
  content = [];
}
