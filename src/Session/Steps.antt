-- ===== src/Session/Steps.antt =====
-- What SocksProxy::on_left_message of src/proxy/socks5/socksproxy.cpp does to its context is made of
-- the events of Socks.Machine.
use smithproxy.Base.{
  ℕ, Bool, true, false, List, [], ◌∷◌, Option, none, some, ◌≡◌, refl, ◌≢◌, ◌==◌, if-keeps,
  if◌then◌else◌,
}
use smithproxy.Base.Outcome.{value, ◌>>=◌, Ends, Ends->>=, Ends-any, Ends-value}
use smithproxy.Policy.Rule.{Rule, HostCx, sock_dgram}
use smithproxy.Policy.Table.{policy_action, policy_match_lr, lookup_policy}
use smithproxy.Session.{Proxy, Store, SessionEnv}
use smithproxy.Session.Apply.{policy_apply}
use smithproxy.Session.Policy.{route_policy}
use smithproxy.Session.Accept.{rule_at}
use smithproxy.Session.Handoff.{policy_verdict, socks5_handoff, truthy}
use smithproxy.Session.Message.{
  Surroundings, seen_cx, right_seen, handed_from, given, Handling, out_of_table, udp_pair,
  socks5_handoff_udp, handoff_tcp, after_verdict, on_wait_policy, on_handoff, on_state, on_request,
  on_left_message,
}
use smithproxy.Socks.{
  Cx, Env, Ended, done, raised, undefined, LeftCx, RightCx, RequestError, no_error, malformed_data,
  unsupported_version, unsupported_atype, unsupported_method, unauthorized, State, init, hello_sent,
  wait_request, req_received, wait_policy, policy_received, reqres_sent, dns_query_sent,
  dns_resp_recv, dns_resp_failed, handoff, zombie, pending, accept, reject, cmd_connect,
  cmd_udp_associate,
}
use smithproxy.Socks.Reply.{give_verdict}
use smithproxy.Socks.Machine.{Reach, here, next, judged, judged_datagram, retires, releases, fails}

-- A verdict that was given.
given-Ends : (m : Ended ℕ) → Ends (λ c. (n : ℕ) × (m ≡ done (n, c))) (given m)
unfolding given
given-Ends (done (n, c)) = (n, refl)
given-Ends (raised e c) = tt
given-Ends undefined = tt

module _ (env : SessionEnv) (socks : Env) (s : Surroundings) where
  -- The context that is left, if one is, was reached.
  abbrev Reaches : Cx → Option Cx → Type 0
  Reaches cx none = Unit
  Reaches cx (some c) = Reach socks cx c

  abbrev Leaves : Cx → Handling env socks s → Type 0
  Leaves cx r = Reaches cx r.2

  handoff_tcp-Leaves :
      (a : Cx) (st : Store env.policy_env.lib.Cidr) (p : Proxy) (l4 : ℕ) (cx : Cx)
      → Reach socks a cx
      → Ends (Leaves a) (handoff_tcp env socks s st p l4 cx)
  unfolding handoff_tcp
  handoff_tcp-Leaves a st p l4 cx h =
      Ends->>= _ (Leaves a) (socks5_handoff env st p l4 (handed_from s cx)) _ (Ends-any _)
        λ r u. if-keeps (Reaches a) (out_of_table env socks s st p) (some cx) none h tt

  udp_pair-Leaves :
      (a : Cx) (st : Store env.policy_env.lib.Cidr) (p : Proxy) (cx : Cx) (l : Option LeftCx)
      (r : Option RightCx)
      → Reach socks a cx
      → Ends (Leaves a) (udp_pair env socks s st p cx l r)
  unfolding udp_pair
  udp_pair-Leaves a st p cx l none h = tt
  udp_pair-Leaves a st p cx none (some r) h = tt
  udp_pair-Leaves a st p cx (some l) (some r) h =
      Ends->>= _ (Leaves a) (rule_at env st.rules p.matched_policy) _ (Ends-any _) λ rule u.
        Ends->>= _ (Leaves a) (route_policy env (lookup_policy st.rules p.matched_policy) st _) _
          (Ends-any _)
          λ (st', p') u.
            Ends->>= _ (Leaves a) (policy_apply env st'.rules _ p' p'.matched_policy) _ (Ends-any _)
              λ r u. next h (releases refl)

  after_verdict-Leaves :
      (a : Cx) (st : Store env.policy_env.lib.Cidr) (p : Proxy) (l4 : ℕ) (cx : Cx)
      → Reach socks a cx
      → Reach socks a (record cx { state = zombie })
      → Ends (Leaves a) (after_verdict env socks s st p l4 cx)
  unfolding after_verdict socks5_handoff_udp
  after_verdict-Leaves a st p l4 cx h z =
      if-keeps (Ends (Leaves a)) (l4 == sock_dgram) _ _
        (if-keeps (Ends (Leaves a)) (cx.l4_proto == sock_dgram) _ _
          (if-keeps (Ends (Leaves a)) (out_of_table env socks s st p) _ _ z
            (udp_pair-Leaves a st p _ cx.left cx.right z))
          (handoff_tcp-Leaves a st p l4 _ z))
        h

  -- A verdict of the policy is never `pending`.
  decided : (b : Bool) → ¬ ((if b then accept else reject) ≡ pending)
  decided true e = cc
  decided false e = cc

  policy_verdict-decided :
      (rules : List (Rule env.policy_env.lib.Cidr)) (p : Proxy) (cmd : ℕ) (cx right : Option HostCx)
      → Ends (λ r. r.2 ≢ pending) (policy_verdict env rules p cmd cx right)
  unfolding policy_verdict
  policy_verdict-decided rules p cmd cx right =
      if-keeps (Ends (λ r. r.2 ≢ pending)) (cmd == cmd_connect) _ _
        (Ends->>= _ (λ r. r.2 ≢ pending)
          (policy_match_lr env.policy_env rules (cx ∷ []) (right ∷ [])) _ (Ends-any _)
          λ (rules', n) u. decided (truthy (policy_action rules' n)))
        (decided (cmd == cmd_udp_associate))

  module _ (st : Store env.policy_env.lib.Cidr) (p : Proxy) (l4 : ℕ) (cx : Cx) where
    on_wait_policy-Leaves : Ends (Leaves cx) (on_wait_policy env socks s st p l4 cx)
    unfolding on_wait_policy
    on_wait_policy-Leaves =
        Ends->>= (λ r. r.2 ≢ pending) (Leaves cx)
          (policy_verdict env st.rules p cx.req_cmd (some (seen_cx cx))
            (right_seen env socks s cx.right))
          _ (policy_verdict-decided st.rules p cx.req_cmd (some (seen_cx cx)) _)
          λ (rules', q, v) d.
            Ends->>= _ (Leaves cx) (given (give_verdict socks v cx)) _ (given-Ends _) λ c (n, e).
              after_verdict-Leaves cx (record st { rules = rules' }) q l4 c
                (next here (judged v n d e)) (next here (judged_datagram v n c d e refl))

    on_handoff-Leaves : cx.state ≡ handoff → Ends (Leaves cx) (on_handoff env socks s st p l4 cx)
    unfolding on_handoff
    on_handoff-Leaves w =
        if-keeps (Ends (Leaves cx)) (cx.l4_proto == sock_dgram) _ _ (next here (retires w refl))
          (handoff_tcp-Leaves cx st p l4 _ (next here (retires w refl)))

    on_state-Leaves :
        (t : State) → cx.state ≡ t → Ends (Leaves cx) (on_state env socks s t st p l4 cx)
    unfolding on_state
    on_state-Leaves wait_policy w = on_wait_policy-Leaves
    on_state-Leaves handoff w = on_handoff-Leaves w
    on_state-Leaves init w = here
    on_state-Leaves hello_sent w = here
    on_state-Leaves wait_request w = here
    on_state-Leaves req_received w = here
    on_state-Leaves policy_received w = here
    on_state-Leaves reqres_sent w = here
    on_state-Leaves dns_query_sent w = here
    on_state-Leaves dns_resp_recv w = here
    on_state-Leaves dns_resp_failed w = here
    on_state-Leaves zombie w = here

    rejects :
        Ends
          (Leaves cx)
          (given (give_verdict socks reject cx) >>= λ cx'. value (st, p, some cx', []))
    rejects =
        Ends->>= _ (Leaves cx) (given (give_verdict socks reject cx)) _ (given-Ends _)
          λ c (n, e). next here (judged reject n (decided false) e)

    on_request-Leaves : (e : RequestError) → Ends (Leaves cx) (on_request env socks s e st p l4 cx)
    unfolding on_request
    on_request-Leaves no_error = on_state-Leaves cx.state refl
    on_request-Leaves malformed_data = next here (fails refl)
    on_request-Leaves unsupported_version = rejects
    on_request-Leaves unsupported_atype = rejects
    on_request-Leaves unsupported_method = rejects
    on_request-Leaves unauthorized = rejects

  -- A call of on_left_message that returns, and leaves the context there, has taken it through
  -- events of the machine.
  on_left_message-Reach :
      (st st' : Store env.policy_env.lib.Cidr) (p p' : Proxy) (l4 : ℕ) (cx c : Cx) (out : List ℕ)
      → on_left_message env socks s st p l4 cx ≡ value (st', p', some c, out)
      → Reach socks cx c
  unfolding on_left_message
  on_left_message-Reach st st' p p' l4 cx c out e =
      Ends-value (Leaves cx) (on_left_message env socks s st p l4 cx)
        (on_request-Leaves st p l4 cx cx.socks_error) e
