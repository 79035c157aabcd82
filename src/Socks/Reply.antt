-- ===== src/Socks/Reply.antt =====
-- src/proxy/socks5/sockshostcx.cpp: the verdict and the replies to the client.
use smithproxy.Base.{
  ℕ, ◌+◌, ◌%◌, Bool, true, false, ◌&&◌, List, [], ◌∷◌, ◌++◌, none, some, Text, ◌==◌, leb,
  if◌then◌else◌, length,
}
use smithproxy.Base.Bytes.{swap16, bytes16, bytes32}
use smithproxy.Socks.{
  Cx, Env, Ended, done, undefined, ◌>>=◌, Verdict, pending, accept, policy_received, reqres_sent,
  s_addr, cmd_connect, cmd_udp_associate, atype_ipv4, atype_fqdn,
}
use smithproxy.Socks.Request.{find_client, udp_or_new}

abbrev pub response_size : ℕ
response_size = 128

-- Bytes written one after the other into `std::array<uint8_t,128>`, whose operator[] is unchecked:
-- a write behind its end is undefined behaviour.
unfoldable pub write_response : List ℕ → List ℕ → Cx → Ended (List ℕ)
write_response response bytes cx =
    if leb (length response + length bytes) response_size
    then done (response ++ bytes, cx)
    else undefined

unfoldable pub status_v5 : Verdict → ℕ
status_v5 accept = 0
status_v5 v = 2

unfoldable pub status_v4 : Verdict → ℕ
status_v4 accept = 90
status_v4 v = 91

-- What follows the first three bytes.
unfoldable pub reply_body : Cx → List ℕ
reply_body cx =
    if cx.req_cmd == cmd_connect
    then (if cx.req_atype == atype_ipv4
        then cx.req_atype ∷ (bytes32 (s_addr cx.req_addr) ++ bytes16 (swap16 cx.req_port))
        else if cx.req_atype == atype_fqdn
        then cx.req_atype
          ∷ (length cx.req_str_addr % 256)
          ∷ (cx.req_str_addr ++ bytes16 (swap16 cx.req_port))
        else cx.req_atype ∷ [])
    else if cx.req_cmd == cmd_udp_associate
    then 1 ∷ (bytes32 0 ++ bytes16 (swap16 1080))
    else []

-- process_socks_reply_v5
unfoldable pub process_socks_reply_v5 : Cx → Ended ℕ
process_socks_reply_v5 cx = do
  (response, cx) ← write_response (5 ∷ status_v5 cx.verdict ∷ 0 ∷ []) (reply_body cx) cx
  done (
    length response,
    record cx { writebuf = cx.writebuf ++ response; state = reqres_sent; write_monitored = true },
  )

unfoldable pub process_socks_reply_v4 : Cx → Ended ℕ
process_socks_reply_v4 cx = done (
  8,
  record cx {
    writebuf =
        cx.writebuf
        ++ (0
            ∷ status_v4 cx.verdict
            ∷ (bytes16 (swap16 cx.req_port) ++ bytes32 (s_addr cx.req_addr)));
    state = reqres_sent;
  },
)

-- Version 0 is a datagram's; no version but 4 and 5 is answered.
unfoldable pub process_socks_reply : Cx → Ended ℕ
process_socks_reply cx =
    if cx.version == 4
    then process_socks_reply_v4 cx
    else if cx.version == 5
    then process_socks_reply_v5 cx
    else done (0, cx)

-- std::map::emplace keeps an entry that is there.
unfoldable pub emplace_client : Text → ℕ → List (Text × ℕ) → List (Text × ℕ)
emplace_client k c m = elim (find_client k m) [ none ↦ (k, c) ∷ m | some d ↦ m ]

unfoldable pub associate : Text → Cx → Cx
associate key cx = record cx {
  clients = emplace_client key cx.self cx.clients;
  udp = some (record (udp_or_new cx.udp) { my_assoc = key });
}

unfoldable pub is_accept : Verdict → Bool
is_accept accept = true
is_accept v = false

unfoldable pub answer_verdict : Env → Verdict → Cx → Ended ℕ
answer_verdict env pending cx = done (0, cx)
answer_verdict env v cx = process_socks_reply (
    if is_accept v && (cx.req_cmd == cmd_udp_associate)
    then associate (env.key_of_port cx.host cx.req_port) cx
    else cx)

-- verdict(p)
unfoldable pub give_verdict : Env → Verdict → Cx → Ended ℕ
give_verdict env v cx = answer_verdict env v (record cx { verdict = v; state = policy_received })
