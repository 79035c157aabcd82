-- ===== src/Session/Handoff.antt =====
-- src/proxy/socks5/socksproxy.cpp: the policy's verdict on a SOCKS request, and the hand-off of an
-- accepted TCP connection to the proxy.
use smithproxy.Base.{
  ℕ, Bool, true, false, not, ◌||◌, List, [], ◌∷◌, ◌++◌, Option, none, some, Text, ◌==◌, length,
  if◌then◌else◌,
}
use smithproxy.Base.Int.{ℤ, pos, minus_one, ltb_ℤ, leb_ℤ, eqb_ℤ}
use smithproxy.Base.Outcome.{Outcome, value, ◌>>=◌}
use smithproxy.Policy.Rule.{Rule, HostCx, sock_dgram, nat_none}
use smithproxy.Policy.Table.{policy_action, policy_match_lr, lookup_policy}
use smithproxy.Session.{MitmCx, Proxy, Store, SessionEnv}
use smithproxy.Session.Identity.{socks5_handoff_resolve_identity}
use smithproxy.Session.Apply.{policy_apply}
use smithproxy.Session.Policy.{match_cx, route_policy}
use smithproxy.Session.Accept.{rule_at, low16, keep_source}
use smithproxy.Socks.{Verdict, accept, reject, cmd_connect, cmd_udp_associate}
use smithproxy.Socks.Target.{is_tls_port}

-- An int that becomes a bool.
abbrev pub truthy : ℤ → Bool
truthy n = not (eqb_ℤ n (pos 0))

-- What the hand-off reads of the SOCKS context: the destination of its com(), the source of its
-- socket, and the protocol family of the new com.
pub record Handed : Type 0 where
  pub dst_host : Text
  pub dst_port : ℕ
  pub source : Option (Text × Text)
  pub l3_proto : ℕ

module _ (env : SessionEnv) where
  -- on_left_message in WAIT_POLICY: the policy the proxy matched, and the verdict for the context.
  unfoldable pub policy_verdict :
      List (Rule env.policy_env.lib.Cidr)
      → Proxy
      → ℕ
      → Option HostCx
      → Option HostCx
      → Outcome (List (Rule env.policy_env.lib.Cidr) × Proxy × Verdict)
  policy_verdict rules p cmd cx right =
      if cmd == cmd_connect
      then (do
        (rules', n) ← policy_match_lr env.policy_env rules (cx ∷ []) (right ∷ [])
        value (
          rules',
          record p { matched_policy = n },
          if truthy (policy_action rules' n) then accept else reject,
        ))
      else value (rules, p, if cmd == cmd_udp_associate then accept else reject)

  -- A TLS port gets an SSLCom unless the proxy's com() carries datagrams.
  unfoldable pub handed_cx : ℕ → Handed → MitmCx
  handed_cx l4 h = record {
    host = [];
    port = [];
    l3_proto = h.l3_proto;
    l4_proto = l4;
    bypass =
        if is_tls_port h.dst_port then (if l4 == sock_dgram then none else some false) else none;
    waiting_for_peercom = true;
    matched_policy = minus_one;
    nonlocal_src = false;
    nonlocal_src_host = [];
    nonlocal_src_port = 0;
  }

  -- Its peer: a context for the destination, over a slave of the new com.
  unfoldable pub target_cx : ℕ → Handed → MitmCx
  target_cx l4 h = record (handed_cx l4 h) {
    host = h.dst_host;
    port = env.format_d (pos h.dst_port);
    waiting_for_peercom = false;
  }

  -- Without NAT the target keeps the client's address; a port that is no number is not caught here.
  unfoldable pub keep_client :
      List (Rule env.policy_env.lib.Cidr) → ℤ → Text → Text → MitmCx → Outcome MitmCx
  keep_client rules n host port cx = do
    rule ← rule_at env rules n
    if eqb_ℤ rule.nat nat_none
        then (do k ← env.stoi port; value (keep_source env host (low16 env k) cx))
        else value cx

  unfoldable pub handed_over : List (Rule env.policy_env.lib.Cidr) → MitmCx → ℕ → Proxy → ℤ → Proxy
  handed_over rules cx port p m =
      if ltb_ℤ m (pos 0)
      then record p { dead = true }
      else let (p', ok) =
          socks5_handoff_resolve_identity env rules cx port (record p { connected = true }) in
        (if ok then p' else record p' { dead = true })

  -- `or` applies the policy to the target only if the source had one.
  unfoldable pub apply_both :
      List (Rule env.policy_env.lib.Cidr)
      → MitmCx
      → MitmCx
      → Proxy
      → Outcome (List (Rule env.policy_env.lib.Cidr) × Proxy × ℤ)
  apply_both rules cx target p = do
    (rules1, p1, m1) ← policy_apply env rules (some cx) p p.matched_policy
    if ltb_ℤ m1 (pos 0)
        then value (rules1, p1, m1)
        else policy_apply env rules1 (some target) p1 p1.matched_policy

  unfoldable pub handoff_from :
      Store env.policy_env.lib.Cidr
      → Proxy
      → ℕ
      → Handed
      → Option (Text × Text)
      → Outcome (Store env.policy_env.lib.Cidr × Proxy)
  handoff_from st p l4 h none =
      value (st, record p { ls = []; lda = p.lda ++ handed_cx l4 h ∷ []; dead = true })
  handoff_from st p l4 h (some (host, port)) =
      let n_cx = record (handed_cx l4 h) {
        host = host;
        port = port;
        matched_policy = p.matched_policy;
      } in
      do
        target ← keep_client st.rules p.matched_policy host port (target_cx l4 h)
        (st', p') ← route_policy env (lookup_policy st.rules p.matched_policy) st (record p {
          ls = [];
          lda = p.lda ++ n_cx ∷ [];
          rs = p.rs ++ match_cx p.matched_policy target ∷ [];
        })
        (rules', p'', m) ← apply_both st'.rules n_cx target p'
        value (record st' { rules = rules' }, handed_over rules' n_cx h.dst_port p'' m)

  -- The com()'s l4 protocol of the proxy, and the SOCKS context it gives up.
  unfoldable pub socks5_handoff :
      Store env.policy_env.lib.Cidr
      → Proxy
      → ℕ
      → Handed
      → Outcome (Store env.policy_env.lib.Cidr × Proxy)
  socks5_handoff st p l4 h =
      if ltb_ℤ p.matched_policy (pos 0) || leb_ℤ (pos (length st.rules)) p.matched_policy
      then value (st, record p { dead = true })
      else handoff_from st p l4 h h.source
