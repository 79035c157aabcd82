-- ===== src/Session/Passed.antt =====
-- When SocksProxy::on_left_message of src/proxy/socks5/socksproxy.cpp connects a session.
use smithproxy.Base.{
  ℕ, Bool, true, List, [], ◌∷◌, ◌∙◌, Option, some, get_elem?, get_elem?-lt, ◌≡◌, refl, ◌≢◌, ◌⊎◌,
  inl, inr, ◌==◌, ==_iff, if-cases, if-keeps, length,
}
use smithproxy.Base.Int.{pos}
use smithproxy.Base.Outcome.{
  Outcome, value, ◌>>=◌, Ends, Ends->>=, Ends-any, Ends-self, Ends-value, Ends-weaken,
}
use smithproxy.Policy.Rule.{Rule, HostCx, sock_dgram}
use smithproxy.Policy.Table.{policy_match_lr}
use smithproxy.Session.{Proxy, Store, SessionEnv}
use smithproxy.Session.Handoff.{policy_verdict, socks5_handoff}
use smithproxy.Session.Message.{
  Surroundings, seen_cx, right_seen, given, Handling, out_of_table, socks5_handoff_udp, handoff_tcp,
  after_verdict, on_wait_policy, on_handoff, on_state, on_request, on_left_message,
}
use smithproxy.Session.Verdicts.{in_table}
use smithproxy.Socks.{
  Cx, Env, RequestError, no_error, malformed_data, unsupported_version, unsupported_atype,
  unsupported_method, unauthorized, State, init, hello_sent, wait_request, req_received,
  wait_policy, policy_received, reqres_sent, dns_query_sent, dns_resp_recv, dns_resp_failed,
  handoff, zombie, Verdict, reject, cmd_connect,
}
use smithproxy.Socks.Reply.{give_verdict}

module _ (env : SessionEnv) (socks : Env) (s : Surroundings) where
  -- The proxy's matched policy is the index of a rule.
  abbrev pub HasRule : List (Rule env.policy_env.lib.Cidr) → Proxy → Type 0
  HasRule rules p =
      (k : ℕ) × (rule : Rule env.policy_env.lib.Cidr) × (p.matched_policy ≡ pos k)
      × (get_elem? rules k ≡ some rule)

  -- Why a session may be connected: its context waits for the hand-off, and the policy that it
  -- matched before is a rule; or it is a datagram's, which waits for its policy, and the policy that
  -- it is given is a rule.
  abbrev pub Passed : Store env.policy_env.lib.Cidr → Proxy → ℕ → Cx → Type 0
  Passed st p l4 cx =
      (cx.socks_error ≡ no_error)
      × (((cx.state ≡ handoff) × HasRule st.rules p)
          ⊎ ((cx.state ≡ wait_policy)
              × (l4 ≡ sock_dgram)
              × ((rules' : List (Rule env.policy_env.lib.Cidr)) × (q : Proxy) × (v : Verdict)
                  × (policy_verdict env st.rules p cx.req_cmd (some (seen_cx cx))
                        (right_seen env socks s cx.right)
                      ≡ value (rules', q, v))
                  × HasRule rules' q)))

  -- A call leaves a proxy unconnected, or something holds.
  abbrev Unless : Bool → Type 0 → Handling env socks s → Type 0
  Unless b P r = (r.1.connected ≡ b) ⊎ P

  always : (b : Bool) (P : Type 0) (m : Outcome (Handling env socks s)) → P → Ends (Unless b P) m
  always b P m h = Ends-weaken _ (Unless b P) m (Ends-any m) λ r u. inr h

  has_rule :
      (st : Store env.policy_env.lib.Cidr) (p : Proxy)
      → (out_of_table env socks s st p ≡ true) ⊎ HasRule st.rules p
  has_rule st p = elim (in_table p.matched_policy (length st.rules)) [
    | inl out ↦ inl out
    | inr (k, m, lt) ↦ let (rule, g) = get_elem?-lt st.rules k lt in inr (k, rule, m, g)
  ]

  handoff_tcp-HasRule :
      (st : Store env.policy_env.lib.Cidr) (p : Proxy) (l4 : ℕ) (cx : Cx)
      → Ends (Unless p.connected (HasRule st.rules p)) (handoff_tcp env socks s st p l4 cx)
  unfolding handoff_tcp socks5_handoff
  handoff_tcp-HasRule st p l4 cx = elim (has_rule st p) [
    | inl out ↦ rw out (inl refl)
    | inr r ↦ always p.connected (HasRule st.rules p) (handoff_tcp env socks s st p l4 cx) r
  ]

  socks5_handoff_udp-HasRule :
      (st : Store env.policy_env.lib.Cidr) (p : Proxy) (cx : Cx)
      → Ends (Unless p.connected (HasRule st.rules p)) (socks5_handoff_udp env socks s st p cx)
  unfolding socks5_handoff_udp
  socks5_handoff_udp-HasRule st p cx = elim (has_rule st p) [
    | inl out ↦ rw out (inl refl)
    | inr r ↦ always p.connected (HasRule st.rules p) (socks5_handoff_udp env socks s st p cx) r
  ]

  after_verdict-HasRule :
      (st : Store env.policy_env.lib.Cidr) (p : Proxy) (l4 : ℕ) (cx : Cx)
      → Ends
          (Unless p.connected ((l4 ≡ sock_dgram) × HasRule st.rules p))
          (after_verdict env socks s st p l4 cx)
  unfolding after_verdict
  after_verdict-HasRule st p l4 cx =
      if-cases (Ends (Unless p.connected ((l4 ≡ sock_dgram) × HasRule st.rules p)))
        (l4 == sock_dgram) _ _
        (λ d.
          Ends-weaken (Unless p.connected (HasRule st.rules p)) _ _
            (if-keeps (Ends (Unless p.connected (HasRule st.rules p))) (cx.l4_proto == sock_dgram) _
              _ (socks5_handoff_udp-HasRule st p _) (handoff_tcp-HasRule st p l4 _))
            λ r u. elim u [ inl c ↦ inl c | inr h ↦ inr ((==_iff l4 sock_dgram).0 d, h) ])
        (λ d. inl refl)

  policy_verdict-connected :
      (rules : List (Rule env.policy_env.lib.Cidr)) (p : Proxy) (cmd : ℕ) (cx right : Option HostCx)
      → Ends (λ r. r.1.connected ≡ p.connected) (policy_verdict env rules p cmd cx right)
  unfolding policy_verdict
  policy_verdict-connected rules p cmd cx right =
      if-keeps (Ends (λ r. r.1.connected ≡ p.connected)) (cmd == cmd_connect) _ _
        (Ends->>= _ (λ r. r.1.connected ≡ p.connected)
          (policy_match_lr env.policy_env rules (cx ∷ []) (right ∷ [])) _ (Ends-any _) λ r u. refl)
        refl

  module _ (st : Store env.policy_env.lib.Cidr) (p : Proxy) (l4 : ℕ) (cx : Cx) where
    on_wait_policy-Passed :
        cx.socks_error ≡ no_error
        → cx.state ≡ wait_policy
        → Ends (Unless p.connected (Passed st p l4 cx)) (on_wait_policy env socks s st p l4 cx)
    unfolding on_wait_policy
    on_wait_policy-Passed e w =
        Ends->>= _ (Unless p.connected (Passed st p l4 cx)) asked _ (Ends-self asked)
          λ (rules', q, v) a.
            Ends->>= _ (Unless p.connected (Passed st p l4 cx)) (given (give_verdict socks v cx)) _
              (Ends-any (given (give_verdict socks v cx)))
              λ cx' u.
                Ends-weaken _ (Unless p.connected (Passed st p l4 cx)) _
                  (after_verdict-HasRule (record st { rules = rules' }) q l4 cx')
                  λ r h. elim h [
                    | inl c ↦ inl (c ∙ Ends-value (λ r. r.1.connected ≡ p.connected) asked kept a)
                    | inr (d, i) ↦ inr (e, inr (w, d, (rules', q, v, a, i)))
                  ]
      where
        asked : Outcome (List (Rule env.policy_env.lib.Cidr) × Proxy × Verdict)
        asked =
            policy_verdict env st.rules p cx.req_cmd (some (seen_cx cx))
              (right_seen env socks s cx.right)

        kept : Ends (λ r. r.1.connected ≡ p.connected) asked
        kept =
            policy_verdict-connected st.rules p cx.req_cmd (some (seen_cx cx))
              (right_seen env socks s cx.right)

    on_handoff-Passed :
        cx.socks_error ≡ no_error
        → cx.state ≡ handoff
        → Ends (Unless p.connected (Passed st p l4 cx)) (on_handoff env socks s st p l4 cx)
    unfolding on_handoff
    on_handoff-Passed e w =
        if-keeps (Ends (Unless p.connected (Passed st p l4 cx))) (cx.l4_proto == sock_dgram) _ _
          (inl refl)
          (Ends-weaken _ (Unless p.connected (Passed st p l4 cx)) _
            (handoff_tcp-HasRule st p l4 (record cx { state = zombie }))
            λ r h. elim h [ inl c ↦ inl c | inr i ↦ inr (e, inl (w, i)) ])

    on_state-Passed :
        (t : State)
        → cx.socks_error ≡ no_error
        → cx.state ≡ t
        → Ends (Unless p.connected (Passed st p l4 cx)) (on_state env socks s t st p l4 cx)
    unfolding on_state
    on_state-Passed wait_policy e w = on_wait_policy-Passed e w
    on_state-Passed handoff e w = on_handoff-Passed e w
    on_state-Passed init e w = inl refl
    on_state-Passed hello_sent e w = inl refl
    on_state-Passed wait_request e w = inl refl
    on_state-Passed req_received e w = inl refl
    on_state-Passed policy_received e w = inl refl
    on_state-Passed reqres_sent e w = inl refl
    on_state-Passed dns_query_sent e w = inl refl
    on_state-Passed dns_resp_recv e w = inl refl
    on_state-Passed dns_resp_failed e w = inl refl
    on_state-Passed zombie e w = inl refl

    rejected :
        Ends
          (Unless p.connected (Passed st p l4 cx))
          (given (give_verdict socks reject cx) >>= λ cx'. value (st, p, some cx', []))
    rejected =
        Ends->>= _ (Unless p.connected (Passed st p l4 cx)) (given (give_verdict socks reject cx)) _
          (Ends-any (given (give_verdict socks reject cx))) λ cx' u. inl refl

    on_request-Passed :
        (e : RequestError)
        → cx.socks_error ≡ e
        → Ends (Unless p.connected (Passed st p l4 cx)) (on_request env socks s e st p l4 cx)
    unfolding on_request
    on_request-Passed no_error e = on_state-Passed cx.state e refl
    on_request-Passed malformed_data e = inl refl
    on_request-Passed unsupported_version e = rejected
    on_request-Passed unsupported_atype e = rejected
    on_request-Passed unsupported_method e = rejected
    on_request-Passed unauthorized e = rejected

  -- When on_left_message connects the session, the request had no error; either its context waited
  -- for the hand-off, and the policy that the proxy had matched is a rule of the table, or the
  -- proxy's com() is one of datagrams, the context waited for its policy, and the policy that the
  -- proxy has after the verdict is a rule of the table.
  pub on_left_message-Passed :
      (st st' : Store env.policy_env.lib.Cidr) (p p' : Proxy) (l4 : ℕ) (cx : Cx) (c : Option Cx)
      (out : List ℕ)
      → on_left_message env socks s st p l4 cx ≡ value (st', p', c, out)
      → p'.connected ≢ p.connected
      → Passed st p l4 cx
  unfolding on_left_message
  on_left_message-Passed st st' p p' l4 cx c out e n =
      elim (Ends-value (Unless p.connected (Passed st p l4 cx))
        (on_left_message env socks s st p l4 cx) (on_request-Passed st p l4 cx cx.socks_error refl)
        e) [ inl k ↦ absurd (n k) | inr h ↦ h ]
