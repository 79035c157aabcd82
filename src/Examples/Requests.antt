-- ===== src/Examples/Requests.antt =====
-- A concrete SOCKS context and its requests.
use smithproxy.Base.{
  some, ℕ, true, false, List, [], ◌∷◌, ◌++◌, none, Text, ◌≡◌, ◌≢◌, ◌↔◌, refl, ◌<◌, ◌+◌, ◌*◌, length,
  replicate, arith,
}
use smithproxy.Base.Outcome.{value}
use smithproxy.Base.Bytes.{plain_buffers, plain_buffers-IsBuffers}
use smithproxy.Socks.{
  dns_query_sent, Cx, Env, done, undefined, State, wait_request, wait_policy, reqres_sent, no_error,
  pending, accept, unset, cmd_connect, atype_fqdn,
}
use smithproxy.Socks.Request.{socks5_parse_request}
use smithproxy.Socks.Reply.{
  reply_body, process_socks_reply_v5, give_verdict, answer_verdict, is_accept, process_socks_reply,
  write_response, status_v5,
}
use smithproxy.Socks.Target.{dns_request}
use smithproxy.Base.Int.{pos}
use smithproxy.Socks.Connect.{query_type, process_in, handle5_connect_fqdn}
use smithproxy.Socks.Wire.{reply_v5-overflow, reply-parse_ipv4, parse_request-name}
use smithproxy.Socks.Cache.{connect_fqdn-queries}
use smithproxy.Dns.{new_packet, new_answer}
use smithproxy.Socks.Input.{Safe, process_in-Safe}
use smithproxy.Socks.Machine.{Reach, here, next, judged, Reach-Judged}

abbrev pub plain_env : Env
plain_env = record {
  buffers = plain_buffers;
  key_of_texts = λ a b. a ++ 58 ∷ b;
  key_of_port = λ a p. a ++ 58 ∷ p ∷ [];
  v4_text = λ a. a ∷ [];
  v6_text = λ b. b;
  source_host = 49 ∷ [];
  source_port = 50 ∷ [];
  stoi = λ t. value (length t);
  is_cidr = λ t. false;
  dns_cache = λ t. none;
  now = 0;
  semi_random = 0;
  dns_id = 7;
  dns_buffer = λ n. replicate n 0;
  dns_socket = pos 5;
  dns_connect = pos 0;
  dns_send = λ b. pos 30;
  blocking_answer = none;
  mixed_ip_versions = false;
  prefer_ipv6 = false;
}

-- A TCP context with an input, in a state.
abbrev pub tcp_cx : List ℕ → State → Text → Cx
tcp_cx input s name = record {
  self = 0;
  host = 49 ∷ [];
  port = 50 ∷ [];
  l4_proto = 1;
  l3_proto = 2;
  readbuf = input;
  writebuf = [];
  in_error = false;
  state = s;
  socks_error = no_error;
  verdict = pending;
  version = 5;
  req_cmd = cmd_connect;
  req_atype = atype_fqdn;
  req_addr = unset;
  req_str_addr = name;
  req_port = 80;
  req_hdr_size = 0;
  nonlocal_dst_host = [];
  nonlocal_dst_port = 0;
  nonlocal_src = false;
  is_ssl = false;
  left = none;
  right = none;
  udp = none;
  clients = [];
  shut = [];
  tested_dns_a = false;
  tested_dns_aaaa = false;
  async_dns = true;
  waiting_for_peercom = false;
  read_waiting_for_peercom = false;
  write_monitored = false;
  async_dns_query = none;
  sent = [];
  stored = [];
}

abbrev long_name : Cx
long_name = tcp_cx [] wait_policy (replicate 122 97)

abbrev v4_request : Cx
v4_request = tcp_cx (5 ∷ 1 ∷ 0 ∷ 1 ∷ 10 ∷ 0 ∷ 0 ∷ 7 ∷ 1 ∷ 187 ∷ []) wait_request []

abbrev name_request : Cx
name_request = tcp_cx (5 ∷ 1 ∷ 0 ∷ 3 ∷ 2 ∷ 97 ∷ 98 ∷ 1 ∷ 187 ∷ []) wait_request []

reply_v5-overflow_example :
    (process_socks_reply_v5 long_name ≡ undefined) ↔ (121 < length long_name.req_str_addr)
reply_v5-overflow_example = reply_v5-overflow long_name refl refl

reply-parse_ipv4_example :
    (cx : Cx) × (socks5_parse_request plain_env v4_request ≡ done (no_error, cx))
    × (reply_body cx ≡ 1 ∷ 10 ∷ 0 ∷ 0 ∷ 7 ∷ 1 ∷ 187 ∷ [])
reply-parse_ipv4_example =
    reply-parse_ipv4 plain_env plain_buffers-IsBuffers v4_request 5 1 0 10 0 0 7 1 187 [] refl
      (omega arith) refl (omega arith) (omega arith) (omega arith) (omega arith) (omega arith)
      (omega arith)

parse_request-name_example :
    (cx : Cx) × (socks5_parse_request plain_env name_request ≡ done (no_error, cx))
    × (cx.req_atype ≡ atype_fqdn)
    × (cx.req_str_addr ≡ 97 ∷ 98 ∷ [])
    × (cx.req_port ≡ 1 * 256 + 187)
parse_request-name_example =
    parse_request-name plain_env plain_buffers-IsBuffers name_request 5 1 0 1 187 (97 ∷ 98 ∷ []) []
      refl (omega arith) (omega arith) (omega arith)

process_in-Safe_example : Safe plain_env (process_in plain_env name_request)
process_in-Safe_example =
    process_in-Safe plain_env plain_buffers-IsBuffers (λ e. absurd (cc)) name_request tt

abbrev asked : Cx
asked = tcp_cx [] wait_policy (97 ∷ [])

-- `asked` after the verdict that its request is accepted.
abbrev answered : Cx
answered = record asked {
  verdict = accept;
  state = reqres_sent;
  write_monitored = true;
  writebuf = 5 ∷ 0 ∷ 0 ∷ 3 ∷ 1 ∷ 97 ∷ 0 ∷ 80 ∷ [];
}

answered_reached : Reach plain_env asked answered
unfolding give_verdict answer_verdict is_accept process_socks_reply process_socks_reply_v5
    write_response reply_body status_v5
answered_reached = next here (judged accept 8 (λ e. absurd (cc)) refl)

Reach-Judged_example : answered.verdict ≢ pending
Reach-Judged_example =
    Reach-Judged plain_env plain_buffers-IsBuffers (λ e. absurd (cc)) {cx = asked} {cx' = answered}
      tt answered_reached (λ h. h)

-- A cache that has a fresh answer for every name.
abbrev cached_env : Env
cached_env = record plain_env {
  dns_cache = λ t. some (record new_packet {
    answers_list = record new_answer { kind = 1; ttl = 60; content = 10 ∷ 0 ∷ 0 ∷ 1 ∷ [] } ∷ [];
  });
}

connect_fqdn-queries_example :
    (cx : Cx) × (handle5_connect_fqdn cached_env asked ≡ done (no_error, cx))
    × (cx.sent ≡ dns_request cached_env (97 ∷ []) (query_type cached_env asked) ∷ [])
    × (cx.async_dns_query ≡ some (pos 5))
    × (cx.state ≡ dns_query_sent)
connect_fqdn-queries_example = connect_fqdn-queries cached_env asked 4 refl refl refl refl refl refl
