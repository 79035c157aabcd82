-- ===== src/Socks/Connect.antt =====
-- src/proxy/socks5/sockshostcx.cpp: the requests, from the buffer to a prepared target.
use smithproxy.Base.{
  ℕ, ◌+◌, ◌-◌, ◌^◌, Bool, true, false, not, ◌&&◌, List, [], ◌∷◌, Option, none, some, Text, ◌==◌,
  ltb, ◌++◌, if◌then◌else◌, length,
}
use smithproxy.Base.Outcome.{out_of_range}
use smithproxy.Base.Bytes.{swap16}
use smithproxy.Dns.{Answer, Packet, type_a, type_aaaa}
use smithproxy.Dns.Response.{ascii}
use smithproxy.Policy.Rule.{sock_dgram}
use smithproxy.Socks.{
  Cx, Env, Ended, done, raised, undefined, ◌>>=◌, reading, RequestError, no_error,
  unsupported_version, unsupported_atype, unsupported_method, malformed_data, unauthorized, State,
  init, wait_request, req_received, dns_query_sent, v4, af_inet6, cmd_connect, cmd_udp_associate,
  atype_ipv4, atype_fqdn,
}
use smithproxy.Socks.Request.{is_empty, find_client, socks5_parse_request}
use smithproxy.Socks.Target.{
  wait_policy_state, answer_ips, setup_target, choose_and_set, process_dns_response,
  setup_dns_async,
}

module _ (env : Env) where
  open env use {key_of_texts, v4_text, is_cidr, dns_cache, now, blocking_answer, prefer_ipv6}
  open env.buffers use {get_at_u8, get_at_u16, get_at_u32}

  unfoldable pub fresh_ips : List Answer → ℕ → List Text → List Text
  fresh_ips [] loaded_at where_to = where_to
  fresh_ips (a ∷ rest) loaded_at where_to =
      if ltb now (loaded_at + a.ttl) then where_to ++ answer_ips env (a ∷ rest) else where_to

  -- The lambda fill_w_dns_cache takes its vector by value: what it returns here is that copy.
  unfoldable pub fill_w_dns_cache : Option Packet → List Text → List Text
  fill_w_dns_cache none where_to = where_to
  fill_w_dns_cache (some resp) where_to = fresh_ips resp.answers_list resp.loaded_at where_to

  -- The targets that are known without a query. The filled copy is dropped.
  unfoldable pub known_targets : Cx → List Text
  known_targets cx =
      if is_cidr cx.req_str_addr
      then cx.req_str_addr ∷ []
      else let dropped =
          fill_w_dns_cache
            (dns_cache
              (ascii (if cx.l3_proto == af_inet6 then "AAAA:" else "A:") ++ cx.req_str_addr))
            [] in
        []

  unfoldable pub query_type : Cx → ℕ
  query_type cx =
      if cx.l3_proto == af_inet6 then type_aaaa else if prefer_ipv6 then type_aaaa else type_a

  -- With no target a query is sent, or waited for where the setting says so.
  unfoldable pub resolve_target : Cx → Ended RequestError
  resolve_target cx =
      if cx.async_dns
      then done (no_error, setup_dns_async env cx.req_str_addr (query_type cx) cx)
      else do
        (_, cx) ← process_dns_response env blocking_answer cx
        (_, cx) ← setup_target env cx
        done (no_error, cx)

  unfoldable pub connect_to : List Text → Cx → Ended RequestError
  connect_to ips cx = do
    (ok, cx) ← choose_and_set env ips cx
    done (no_error, (if ok then cx else record cx { in_error = true }))

  unfoldable pub handle5_connect_fqdn : Cx → Ended RequestError
  handle5_connect_fqdn cx =
      if is_empty cx.req_str_addr
      then done (malformed_data, cx)
      else let cx' = record cx { nonlocal_dst_port = cx.req_port; nonlocal_src = true } in
        if is_empty (known_targets cx')
        then resolve_target cx'
        else connect_to (known_targets cx') cx'

  unfoldable pub handle4_connect : Cx → Ended RequestError
  handle4_connect cx = if ltb (length cx.readbuf) 8 then done (malformed_data, cx) else do
    (p, cx) ←
        reading (get_at_u16 cx.readbuf 2)
          (record cx { req_atype = atype_ipv4; state = req_received })
    (dst, cx) ← reading (get_at_u32 cx.readbuf 4) (record cx { req_port = swap16 p })
    (_, cx) ← setup_target env (record cx {
      req_addr = v4 dst;
      nonlocal_dst_host = v4_text dst;
      nonlocal_dst_port = cx.req_port;
      nonlocal_src = true;
    })
    done (no_error, cx)

  -- A datagram's sender has to be associated.
  unfoldable pub is_associated : Cx → Bool
  is_associated cx = elim (find_client (key_of_texts cx.host cx.port) cx.clients) [
    | none ↦ false
    | some c ↦ true
  ]

  unfoldable pub dispatch_atype : Cx → Ended RequestError
  dispatch_atype cx =
      if cx.req_atype == atype_fqdn
      then handle5_connect_fqdn cx
      else if cx.req_atype == atype_ipv4
      then (do (ok, cx) ← setup_target env cx; done ((if ok then no_error else malformed_data), cx))
      else done (unsupported_atype, cx)

  unfoldable pub after_parse : RequestError → Cx → Ended RequestError
  after_parse no_error cx = dispatch_atype cx
  after_parse e cx = done (e, cx)

  unfoldable pub handle5_connect : Cx → Ended RequestError
  handle5_connect cx = do
    (parse_status, cx) ← socks5_parse_request env cx
    if (cx.l4_proto == sock_dgram) && not (is_associated cx)
        then done (unauthorized, cx)
        else after_parse parse_status cx

  -- The body of the `try`: an early return of a size, or the error that goes to socks_error_.
  unfoldable pub request_body : Cx → Ended (Option RequestError)
  request_body cx = do
    (version, cx) ← reading (get_at_u8 cx.readbuf 0) cx
    (cmd, cx) ← reading (get_at_u8 cx.readbuf 1) (record cx { version = version })
    let cx = record cx { req_cmd = cmd }
    if version == 5
        then if ltb (length cx.readbuf) 10
          then done (none, cx)
          else if cmd == cmd_connect
          then (do (e, cx) ← handle5_connect cx; done (some e, cx))
          else if cmd == cmd_udp_associate
          then (do (e, cx) ← socks5_parse_request env cx; done (some e, wait_policy_state cx))
          else done (some unsupported_method, cx)
        else if version == 4
        then (do (e, cx) ← handle4_connect cx; done (some e, cx))
        else done (some unsupported_version, cx)

  -- `return -1` from a std::size_t function.
  abbrev pub size_minus_one : ℕ
  size_minus_one = 2 ^ 64 - 1

  abbrev pub is_no_error : RequestError → Bool
  is_no_error no_error = true
  is_no_error e = false

  unfoldable pub finish_request : RequestError → Cx → Ended ℕ
  finish_request e cx = done (
    length cx.readbuf,
    (if is_no_error e
        then record cx { socks_error = e }
        else record cx { socks_error = e; in_error = true }),
  )

  -- Only std::out_of_range is caught.
  unfoldable pub catch_request : Ended (Option RequestError) → Ended ℕ
  catch_request (done (none, cx)) = done (size_minus_one, cx)
  catch_request (done (some e, cx)) = finish_request e cx
  catch_request (raised out_of_range cx) = finish_request malformed_data cx
  catch_request (raised e cx) = raised e cx
  catch_request undefined = undefined

  unfoldable pub is_dns_query_sent : State → Bool
  is_dns_query_sent dns_query_sent = true
  is_dns_query_sent s = false

  unfoldable pub process_socks_request : Cx → Ended ℕ
  process_socks_request cx =
      if is_dns_query_sent cx.state
      then done (0, record cx { socks_error = no_error })
      else catch_request (request_body (record cx { socks_error = no_error }))

  -- A hello whose methods are all there: version 5 is answered with "no authentication".
  unfoldable pub hello_methods : ℕ → ℕ → Cx → Ended ℕ
  hello_methods version nmethods cx =
      if ltb (length cx.readbuf) (2 + nmethods)
      then done (0, cx)
      else if version == 5
      then done (
        length cx.readbuf,
        record cx { writebuf = cx.writebuf ++ (5 ∷ 0 ∷ []); state = wait_request },
      )
      else if version == 4
      then process_socks_request cx
      else done (0, record cx { in_error = true })

  unfoldable pub process_socks_hello_tcp : Cx → Ended ℕ
  process_socks_hello_tcp cx = if ltb (length cx.readbuf) 3 then done (0, cx) else do
    (version, cx) ← reading (get_at_u8 cx.readbuf 0) cx
    (nmethods, cx) ← reading (get_at_u8 cx.readbuf 1) (record cx { version = version })
    hello_methods version nmethods cx

  unfoldable pub catch_udp : Ended RequestError → Ended ℕ
  catch_udp (done (no_error, cx)) = done (length cx.readbuf, cx)
  catch_udp (done (e, cx)) = done (0, cx)
  catch_udp (raised out_of_range cx) = done (0, cx)
  catch_udp (raised e cx) = raised e cx
  catch_udp undefined = undefined

  -- The three header reads stand outside the `try`, and the size check covers them.
  unfoldable pub process_socks_udp_request : Cx → Ended ℕ
  process_socks_udp_request cx = if ltb (length cx.readbuf) 4 then done (0, cx) else do
    (reserved, cx) ← reading (get_at_u8 cx.readbuf 0) cx
    (fragment, cx) ← reading (get_at_u8 cx.readbuf 2) cx
    (atype, cx) ← reading (get_at_u8 cx.readbuf 3) (record cx { req_cmd = cmd_connect })
    catch_udp (handle5_connect (record cx { req_atype = atype }))

  unfoldable pub process_socks_hello : Cx → Ended ℕ
  process_socks_hello cx =
      if cx.l4_proto == sock_dgram then process_socks_udp_request cx else process_socks_hello_tcp cx

  unfoldable pub process_in_state : State → Cx → Ended ℕ
  process_in_state init cx = process_socks_hello cx
  process_in_state wait_request cx = process_socks_request cx
  process_in_state s cx = done (0, cx)

  unfoldable pub process_in : Cx → Ended ℕ
  process_in cx = process_in_state cx.state cx
