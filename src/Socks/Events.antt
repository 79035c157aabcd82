-- ===== src/Socks/Events.antt =====
-- src/proxy/socks5/sockshostcx.cpp: what the event loop calls besides process_in.
use Prim.Native.Nat.{min}
use smithproxy.Base.{
  ℕ, Bool, true, false, not, List, [], ◌∷◌, ◌++◌, Option, ◌==◌, ltb, if◌then◌else◌, length,
  replicate,
}
use smithproxy.Base.Int.{ℤ, pos, leb_ℤ}
use smithproxy.Base.Bytes.{swap16, bytes16, bytes32}
use smithproxy.Dns.{Packet, type_a, type_aaaa}
use smithproxy.Policy.Rule.{sock_dgram}
use smithproxy.Socks.{
  Cx, Env, Ended, done, ◌>>=◌, Verdict, pending, State, SockAddr, v6, s_addr, init, hello_sent,
  wait_request, req_received, wait_policy, policy_received, reqres_sent, dns_query_sent,
  dns_resp_recv, dns_resp_failed, handoff, zombie, atype_ipv4, atype_ipv6, atype_fqdn,
}
use smithproxy.Socks.Request.{is_empty}
use smithproxy.Socks.Target.{process_dns_response, setup_dns_async}

unfoldable pub is_pending : Verdict → Bool
is_pending pending = true
is_pending v = false

unfoldable pub new_message_in : State → Verdict → Bool
new_message_in wait_policy v = is_pending v
new_message_in handoff v = true
new_message_in s v = false

-- new_message: the proxy is called while a verdict is wanted, and for the handoff.
unfoldable pub new_message : Cx → Bool
new_message cx = new_message_in cx.state cx.verdict

module _ (env : Env) where
  open env use {mixed_ip_versions}

  -- After a failed DNS answer the other address family is tried, each at most once.
  unfoldable pub retry_dns : Cx → Cx
  retry_dns cx =
      if mixed_ip_versions
      then (if not cx.tested_dns_aaaa
          then setup_dns_async env cx.req_str_addr type_aaaa (record cx { tested_dns_aaaa = true })
          else if not cx.tested_dns_a
          then setup_dns_async env cx.req_str_addr type_a (record cx { tested_dns_a = true })
          else cx)
      else record cx { in_error = true }

  unfoldable pub hand_off : Cx → Cx
  hand_off cx =
      if is_empty cx.writebuf then record cx { waiting_for_peercom = true; state = handoff } else cx

  unfoldable pub pre_write_in : State → Cx → Cx
  pre_write_in reqres_sent cx = hand_off cx
  pre_write_in dns_resp_failed cx = retry_dns cx
  pre_write_in s cx = cx

  unfoldable pub pre_write : Cx → Cx
  pre_write cx = pre_write_in cx.state cx

  unfoldable pub watch_socket : Cx → Cx
  watch_socket cx = record cx { write_monitored = true }

  -- dns_response_callback: `red` is what recv returned.
  unfoldable pub dns_response_callback : Option Packet → ℤ → Cx → Ended Bool
  dns_response_callback resp red cx =
      let cx' = record cx { state = dns_resp_recv } in
      if leb_ℤ red (pos 0) then done (false, watch_socket (record cx' { in_error = true })) else do
        (ok, cx'') ← process_dns_response env resp cx'
        done (ok, watch_socket (if ok then cx'' else record cx'' { state = dns_resp_failed }))

-- The order of the enumerators.
unfoldable pub rank : State → ℕ
rank init = 1
rank hello_sent = 2
rank wait_request = 3
rank req_received = 4
rank wait_policy = 5
rank policy_received = 6
rank reqres_sent = 7
rank dns_query_sent = 8
rank dns_resp_recv = 9
rank dns_resp_failed = 10
rank handoff = 11
rank zombie = 12

-- `as_v6()->sin6_addr`: on anything but an IPv6 address it reads the zeroes behind it.
unfoldable pub v6_bytes : SockAddr → List ℕ
v6_bytes (v6 bytes) = bytes
v6_bytes other = replicate 16 0

-- The header that is put before the data of a datagram.
unfoldable pub udp_header : Cx → List ℕ
udp_header cx =
    0
    ∷ 0
    ∷ 0
    ∷ cx.req_atype
    ∷ (if cx.req_atype == atype_ipv4
        then bytes32 (s_addr cx.req_addr) ++ bytes16 (swap16 cx.req_port)
        else if cx.req_atype == atype_ipv6
        then v6_bytes cx.req_addr ++ bytes16 (swap16 cx.req_port)
        else if cx.req_atype == atype_fqdn
        then min (length cx.req_str_addr) 255 ∷ (cx.req_str_addr ++ bytes16 (swap16 cx.req_port))
        else [])

unfoldable pub process_socks_response : Cx → ℕ × Cx
process_socks_response cx =
    let out = udp_header cx ++ cx.writebuf in
    (length out, record cx { state = init; writebuf = out })

-- process_out: only datagrams are wrapped, once a request was received.
unfoldable pub process_out : Cx → ℕ × Cx
process_out cx =
    if not (cx.l4_proto == sock_dgram)
    then (length cx.writebuf, cx)
    else if ltb 4 (rank cx.state)
    then process_socks_response cx
    else (length cx.writebuf, cx)
