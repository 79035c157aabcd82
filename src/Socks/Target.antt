-- ===== src/Socks/Target.antt =====
-- src/proxy/socks5/sockshostcx.cpp: setup_target, choose_server_ip, process_dns_response and
-- setup_dns_async, with DNSFactory::send_dns_request of src/inspect/dns.cpp.
use Prim.Native.Nat.{◌%◌}
use smithproxy.Base.{
  ℕ, ◌+◌, Bool, true, false, not, ◌&&◌, ◌||◌, List, [], ◌∷◌, ◌++◌, Option, none, some, Text, ◌==◌,
  ltb, if◌then◌else◌, length, drop, get_elem?,
}
use smithproxy.Base.Outcome.{out_of_range}
use smithproxy.Dns.{Answer, Packet, type_a, type_aaaa}
use smithproxy.Dns.Response.{address_word as word_of}
use smithproxy.Dns.Request.{request_overhead, generate_dns_request}
use smithproxy.Base.Int.{ℤ, pos, negsuc, ltb_ℤ, eqb_ℤ}
use smithproxy.Policy.Rule.{sock_dgram}
use smithproxy.Socks.{
  Cx, Env, Ended, done, raised, ◌>>=◌, reading, LeftCx, ComKind, ssl_com, udp_com, tcp_com,
  wait_policy, dns_query_sent,
}
use smithproxy.Socks.Request.{is_empty}

-- The ports of the `switch` that stand for TLS.
unfoldable pub is_tls_port : ℕ → Bool
is_tls_port p = (p == 443) || (p == 465) || (p == 636) || (p == 993) || (p == 995)

unfoldable pub pick_com : ℕ → ℕ → ComKind
pick_com l4_proto port =
    if l4_proto == sock_dgram then udp_com else if is_tls_port port then ssl_com else tcp_com

-- wait_policy()
unfoldable pub wait_policy_state : Cx → Cx
wait_policy_state cx = record cx { state = wait_policy; read_waiting_for_peercom = true }

-- With UDP the request's header is dropped and its data goes to the new context.
unfoldable pub flush_header : Cx → Cx
flush_header cx =
    if cx.l4_proto == sock_dgram
    then record cx { readbuf = drop cx.req_hdr_size cx.readbuf }
    else cx

unfoldable pub left_of : Cx → LeftCx
left_of cx = record {
  left_com = pick_com cx.l4_proto cx.nonlocal_dst_port;
  left_dst_host = cx.nonlocal_dst_host;
  left_dst_port = cx.nonlocal_dst_port;
  left_readbuf = if cx.l4_proto == sock_dgram then cx.readbuf else [];
}

-- down_cast_signed<unsigned short>(p).value_or(0)
unfoldable pub cast_port : ℕ → ℕ
cast_port p = if ltb p 65536 then p else 0

-- DNS_Answer::ip, for the texts of libc's printers.
unfoldable pub answer_ip : Env → Answer → Text
answer_ip env a =
    if (a.kind == type_a) && (length a.content == 4)
    then env.v4_text (word_of a.content)
    else if (a.kind == type_aaaa) && (length a.content == 16)
    then env.v6_text a.content
    else []

unfoldable pub answer_ips : Env → List Answer → List Text
answer_ips env [] = []
answer_ips env (a ∷ rest) =
    if is_empty (answer_ip env a)
    then answer_ips env rest
    else answer_ip env a ∷ answer_ips env rest

module _ (env : Env) where
  open env use {
    source_host, source_port, stoi, semi_random, dns_id, dns_buffer, dns_socket, dns_connect,
    dns_send,
  }

  -- setup_target: TLS is noted for TLS ports over TCP, both contexts are made, and the policy is
  -- waited for. `stoi` of the source port may throw, after the left context is made.
  unfoldable pub setup_target : Cx → Ended Bool
  setup_target cx = do
    let cx = record cx {
      is_ssl = cx.is_ssl || (not (cx.l4_proto == sock_dgram) && is_tls_port cx.nonlocal_dst_port);
    }
    let cx = flush_header cx
    (p, cx) ← reading (stoi source_port) (record cx { left = some (left_of cx) })
    done (
      true,
      wait_policy_state (record cx {
        right = some (record {
          right_host = cx.nonlocal_dst_host;
          right_port = cx.nonlocal_dst_port;
          src_host = source_host;
          src_port = cast_port p;
        });
      }),
    )

  -- The chosen index is below the size, so `at` does not throw.
  unfoldable pub choose_at : Option Text → Cx → Ended Bool
  choose_at none cx = raised out_of_range cx
  choose_at (some target) cx = done (true, record cx { nonlocal_dst_host = target })

  unfoldable pub choose_server_ip : List Text → Cx → Ended Bool
  choose_server_ip [] cx = done (false, cx)
  choose_server_ip (x ∷ []) cx = choose_at (some x) cx
  choose_server_ip (x ∷ y ∷ xs) cx =
      choose_at (get_elem? (x ∷ y ∷ xs) (semi_random % length (x ∷ y ∷ xs))) cx

  -- The addresses of a response.
  unfoldable pub target_ips : Option Packet → List Text
  target_ips none = []
  target_ips (some resp) = answer_ips env resp.answers_list

  -- A choice of an address, followed by setup_target; `false` where there is none.
  unfoldable pub choose_and_set : List Text → Cx → Ended Bool
  choose_and_set ips cx = do
    (ok, cx) ← choose_server_ip ips cx
    if ok then (do (_, cx) ← setup_target cx; done (true, cx)) else done (false, cx)

  -- A response with an address goes to DNS_Inspector::store.
  unfoldable pub store_response : Option Packet → Cx → Cx
  store_response none cx = cx
  store_response (some resp) cx =
      if is_empty (answer_ips env resp.answers_list)
      then cx
      else record cx { stored = resp ∷ cx.stored }

  unfoldable pub process_dns_response : Option Packet → Cx → Ended Bool
  process_dns_response resp cx = choose_and_set (target_ips resp) (store_response resp cx)

  -- The request that send_dns_request makes of a name and a type.
  unfoldable pub dns_request : Text → ℕ → List ℕ
  dns_request name type =
      generate_dns_request (dns_buffer (length (46 ∷ name) + request_overhead)) dns_id name type

  -- send_dns_request: the socket or a negative number, and the datagram if one was sent.
  unfoldable pub send_dns_request : Text → ℕ → ℤ × List (List ℕ)
  send_dns_request name type =
      let request = dns_request name type in
      if ltb_ℤ dns_socket (pos 0)
      then (negsuc 0, [])
      else if not (eqb_ℤ dns_connect (pos 0))
      then (negsuc 1, [])
      else if ltb_ℤ (dns_send request) (pos 0)
      then (negsuc 2, [])
      else (dns_socket, request ∷ [])

  -- A negative number counts as a socket.
  unfoldable pub await_answer : ℕ → ℤ × List (List ℕ) → Cx → Cx
  await_answer type (dns_sock, out) cx =
      let cx = record cx { sent = out ++ cx.sent } in
      if eqb_ℤ dns_sock (pos 0) then record cx { in_error = true } else record cx {
        async_dns_query = some dns_sock;
        tested_dns_aaaa = cx.tested_dns_aaaa || (type == type_aaaa);
        tested_dns_a = cx.tested_dns_a || not (type == type_aaaa);
        state = dns_query_sent;
      }

  unfoldable pub setup_dns_async : Text → ℕ → Cx → Cx
  setup_dns_async fqdn type cx = await_answer type (send_dns_request fqdn type) cx
