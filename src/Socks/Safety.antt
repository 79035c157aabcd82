-- ===== src/Socks/Safety.antt =====
-- The calls of the context before its verdict, one after the other: each keeps the state early.
use smithproxy.Base.Int.{pos, eqb_ℤ}
use smithproxy.Base.{
  if-keeps, leb, ◌+◌, ℕ, ◌<◌, ◌≡◌, refl, ◌≢◌, inl, inr, Bool, true, false, List, [], ◌∷◌, Option,
  none, some, Text, arith, if◌then◌else◌, length, get_elem?, get_elem?-lt, Bool-cases,
}
use smithproxy.Base.Outcome.{Outcome}
use smithproxy.Base.Bytes.{IsBuffers, raw_at-inside}
use smithproxy.Dns.{Packet}
use smithproxy.Socks.{Cx, Env, Udp, RequestError, no_error}
use smithproxy.Socks.Request.{
  make_authorized, udp_or_new, shut_associate, refuse_target, authorize_target, authorize_if_udp,
  authorized, parse_fqdn, parsed_addr, parse_ipv4, parse_ipv6, socks5_parse_request,
}
use smithproxy.Socks.Target.{
  wait_policy_state, flush_header, setup_target, choose_at, choose_server_ip, choose_and_set,
  store_response, process_dns_response, setup_dns_async, await_answer, send_dns_request,
}
use smithproxy.Socks.Connect.{
  resolve_target, connect_to, handle5_connect_fqdn, handle4_connect, dispatch_atype, after_parse,
  handle5_connect, request_body,
}
use smithproxy.Socks.Progress.{
  IsEarly, Fine, fine_done, Fine->>=, Fine-if, Fine-reading, get_at_u8-Reads, get_at_u16-Reads,
  get_at_u32-Reads, copy_from_16-Reads, stoi-Reads,
}

shut_associate_state : (c : Option ℕ) (cx : Cx) → (shut_associate c cx).state ≡ cx.state
unfolding shut_associate
shut_associate_state none cx = refl
shut_associate_state (some c) cx = refl

module _ (env : Env) where
  authorize_target_state :
      (cx : Cx) (r : Udp × Bool) → (authorize_target env cx r).0.state ≡ cx.state
  unfolding authorize_target refuse_target
  authorize_target_state cx (u, true) = refl
  authorize_target_state cx (u, false) = shut_associate_state _ _

  authorize_if_udp_state :
      (server : Text) (p : ℕ) (cx : Cx) → (authorize_if_udp env server p cx).0.state ≡ cx.state
  unfolding authorize_if_udp
  authorize_if_udp_state server p cx = ground (
    arith,
    authorize_target_state cx (make_authorized (udp_or_new cx.udp) (env.key_of_port server p)),
  )

  authorized-Fine : (r : Cx × Bool) → IsEarly r.0.state → Fine env (authorized env r)
  unfolding authorized
  authorized-Fine (cx, ok) h = fine_done _ cx h

  authorize-Fine :
      (server : Text) (p : ℕ) (cx : Cx)
      → IsEarly cx.state
      → Fine env (authorized env (authorize_if_udp env server p cx))
  authorize-Fine server p cx h = authorized-Fine _ (rw (authorize_if_udp_state server p cx) h)

module _ (env : Env) (laws : IsBuffers env.buffers) where
  parse_fqdn-Fine : (cx : Cx) → Fine env (parse_fqdn env cx)
  unfolding parse_fqdn
  parse_fqdn-Fine cx =
      Fine->>= env _ (Fine-reading env _ (get_at_u8-Reads env laws _ _) tt) λ size cx h.
        elim (Bool-cases (leb (length cx.readbuf) (size + 4 + 2))) [
          | inl short ↦ rw short (fine_done _ _ h)
          | inr long ↦
              rw (long, raw_at-inside cx.readbuf size long)
                (Fine->>= env _ (Fine-reading env _ (get_at_u16-Reads env laws _ _) h)
                  λ p cx h. authorize-Fine env _ _ _ h)
        ]

  parsed_addr-Fine : (text : Text) (cx : Cx) → IsEarly cx.state → Fine env (parsed_addr env text cx)
  unfolding parsed_addr
  parsed_addr-Fine text cx h = authorize-Fine env _ _ _ h

  parse_ipv4-Fine : (cx : Cx) → Fine env (parse_ipv4 env cx)
  unfolding parse_ipv4
  parse_ipv4-Fine cx =
      Fine->>= env _ (Fine-reading env _ (get_at_u32-Reads env laws _ _) tt) λ dst cx h.
        Fine->>= env _ (Fine-reading env _ (get_at_u16-Reads env laws _ _) h)
          λ p cx h. parsed_addr-Fine _ _ h

  parse_ipv6-Fine : (cx : Cx) → Fine env (parse_ipv6 env cx)
  unfolding parse_ipv6
  parse_ipv6-Fine cx =
      Fine->>= env _ (Fine-reading env _ (copy_from_16-Reads env laws _ _) tt) λ dst cx h.
        Fine->>= env _ (Fine-reading env _ (get_at_u16-Reads env laws _ _) h)
          λ p cx h. parsed_addr-Fine _ _ h

  parse_request-Fine : (cx : Cx) → IsEarly cx.state → Fine env (socks5_parse_request env cx)
  unfolding socks5_parse_request
  parse_request-Fine cx h =
      Fine->>= env _ (Fine-reading env _ (get_at_u8-Reads env laws _ _) h) λ atype cx h.
        Fine-if env _ (parse_fqdn-Fine cx) (
          Fine-if env _ (parse_ipv4-Fine cx) (Fine-if env _ (parse_ipv6-Fine cx) (fine_done _ _ h)))

flush_header_state : (cx : Cx) → (flush_header cx).state ≡ cx.state
unfolding flush_header
flush_header_state cx = ground arith

store_response_state :
    (env : Env) (r : Option Packet) (cx : Cx) → (store_response env r cx).state ≡ cx.state
unfolding store_response
store_response_state env none cx = refl
store_response_state env (some resp) cx = ground arith

module _ (env : Env) where
  get_lt-Fine :
      (ips : List Text) (i : ℕ) (cx : Cx)
      → i < length ips
      → IsEarly cx.state
      → Fine env (choose_at env (get_elem? ips i) cx)
  unfolding choose_at
  get_lt-Fine ips i cx lt h =
      let (a, e) = get_elem?-lt ips i lt in rw (e, choose_at) (fine_done _ _ h)

  choose-Fine :
      (ips : List Text) (cx : Cx) → IsEarly cx.state → Fine env (choose_server_ip env ips cx)
  unfolding choose_server_ip
  choose-Fine [] cx h = fine_done _ _ h
  choose-Fine (x ∷ []) cx h = get_lt-Fine (x ∷ []) 0 cx (omega arith) h
  choose-Fine (x ∷ y ∷ xs) cx h = get_lt-Fine (x ∷ y ∷ xs) _ cx (omega arith) h

  pub setup_dns-IsEarly :
      (name : Text) (t : ℕ) (cx : Cx)
      → IsEarly cx.state
      → IsEarly (setup_dns_async env name t cx).state
  unfolding setup_dns_async await_answer
  setup_dns-IsEarly name t cx h =
      if-keeps (λ (c : Cx). IsEarly c.state) (eqb_ℤ (send_dns_request env name t).0 (pos 0)) _ _ h
        tt

  module _ (ends : env.stoi env.source_port ≢ Outcome.undefined) where
    setup_target-Fine : (cx : Cx) → IsEarly cx.state → Fine env (setup_target env cx)
    unfolding setup_target wait_policy_state
    setup_target-Fine cx h =
        Fine->>= env _ (Fine-reading env _ (stoi-Reads env ends) (rw (flush_header_state _) h))
          λ p cx h. fine_done _ _ tt

    choose_and_set-Fine :
        (ips : List Text) (cx : Cx) → IsEarly cx.state → Fine env (choose_and_set env ips cx)
    unfolding choose_and_set
    choose_and_set-Fine ips cx h = Fine->>= env _ (choose-Fine ips cx h) λ ok cx h.
        Fine-if env ok (Fine->>= env _ (setup_target-Fine cx h) λ _ cx h. fine_done _ _ h)
          (fine_done _ _ h)

    pub dns_response-Fine :
        (r : Option Packet) (cx : Cx) → IsEarly cx.state → Fine env (process_dns_response env r cx)
    unfolding process_dns_response
    dns_response-Fine r cx h = choose_and_set-Fine _ _ (rw (store_response_state env r cx) h)

    resolve_target-Fine : (cx : Cx) → IsEarly cx.state → Fine env (resolve_target env cx)
    unfolding resolve_target
    resolve_target-Fine cx h = Fine-if env _ (fine_done _ _ (setup_dns-IsEarly _ _ cx h)) (
        Fine->>= env _ (dns_response-Fine _ cx h)
          λ _ cx h. Fine->>= env _ (setup_target-Fine cx h) λ _ cx h. fine_done _ _ h)

    keep_or_fail-IsEarly :
        (ok : Bool) (cx : Cx)
        → IsEarly cx.state
        → IsEarly (if ok then cx else record cx { in_error = true }).state
    keep_or_fail-IsEarly true cx h = h
    keep_or_fail-IsEarly false cx h = h

    connect_to-Fine :
        (ips : List Text) (cx : Cx) → IsEarly cx.state → Fine env (connect_to env ips cx)
    unfolding connect_to
    connect_to-Fine ips cx h =
        Fine->>= env _ (choose_and_set-Fine ips cx h)
          λ ok cx h. fine_done _ _ (keep_or_fail-IsEarly ok cx h)

    connect_fqdn-Fine : (cx : Cx) → IsEarly cx.state → Fine env (handle5_connect_fqdn env cx)
    unfolding handle5_connect_fqdn
    connect_fqdn-Fine cx h =
        Fine-if env _ (fine_done _ _ h)
          (Fine-if env _ (resolve_target-Fine _ h) (connect_to-Fine _ _ h))

    dispatch_atype-Fine : (cx : Cx) → IsEarly cx.state → Fine env (dispatch_atype env cx)
    unfolding dispatch_atype
    dispatch_atype-Fine cx h = Fine-if env _ (connect_fqdn-Fine cx h) (
        Fine-if env _ (Fine->>= env _ (setup_target-Fine cx h) λ _ cx h. fine_done _ _ h)
          (fine_done _ _ h))

    after_parse-Fine :
        (e : RequestError) (cx : Cx) → IsEarly cx.state → Fine env (after_parse env e cx)
    unfolding after_parse
    after_parse-Fine no_error cx h = dispatch_atype-Fine cx h
    after_parse-Fine e cx h = fine_done _ _ h

    module _ (laws : IsBuffers env.buffers) where
      handle4-Fine : (cx : Cx) → IsEarly cx.state → Fine env (handle4_connect env cx)
      unfolding handle4_connect
      handle4-Fine cx h = Fine-if env _ (fine_done _ _ h) (
          Fine->>= env _ (Fine-reading env _ (get_at_u16-Reads env laws _ _) tt) λ p cx h.
            Fine->>= env _ (Fine-reading env _ (get_at_u32-Reads env laws _ _) h)
              λ dst cx h. Fine->>= env _ (setup_target-Fine _ h) λ _ cx h. fine_done _ _ h)

      pub handle5-Fine : (cx : Cx) → IsEarly cx.state → Fine env (handle5_connect env cx)
      unfolding handle5_connect
      handle5-Fine cx h =
          Fine->>= env _ (parse_request-Fine env laws cx h)
            λ e cx h. Fine-if env _ (fine_done _ _ h) (after_parse-Fine e cx h)

      pub request_body-Fine : (cx : Cx) → IsEarly cx.state → Fine env (request_body env cx)
      unfolding request_body wait_policy_state
      request_body-Fine cx h =
          Fine->>= env _ (Fine-reading env _ (get_at_u8-Reads env laws _ _) h) λ version cx h.
            Fine->>= env _ (Fine-reading env _ (get_at_u8-Reads env laws _ _) h) λ cmd cx h.
              Fine-if env _
                (Fine-if env _ (fine_done _ _ h) (
                  Fine-if env _ (Fine->>= env _ (handle5-Fine _ h) λ e cx h. fine_done _ _ h) (
                    Fine-if env _
                      (Fine->>= env _ (parse_request-Fine env laws _ h) λ e cx h. fine_done _ _ tt)
                      (fine_done _ _ h))))
                (Fine-if env _ (Fine->>= env _ (handle4-Fine _ h) λ e cx h. fine_done _ _ h)
                  (fine_done _ _ h))
