-- ===== src/Session/Message.antt =====
-- SocksProxy::on_left_message of src/proxy/socks5/socksproxy.cpp: what the proxy does when its
-- SOCKS context calls it, with the hand-off of a datagram.
use smithproxy.Base.{
  ℕ, Bool, true, false, ◌||◌, List, [], ◌∷◌, ◌++◌, Option, none, some, Text, ◌==◌, length,
  if◌then◌else◌,
}
use smithproxy.Base.Int.{pos, minus_one, ltb_ℤ, leb_ℤ, eqb_ℤ}
use smithproxy.Base.Outcome.{Outcome, value, throws, undefined, ◌>>=◌}
use smithproxy.Policy.Rule.{Rule, HostCx, sock_dgram, nat_none}
use smithproxy.Policy.Table.{lookup_policy}
use smithproxy.Session.{MitmCx, Proxy, Store, SessionEnv}
use smithproxy.Session.Apply.{policy_apply}
use smithproxy.Session.Policy.{match_cx, route_policy}
use smithproxy.Session.Accept.{rule_at}
use smithproxy.Session.Handoff.{Handed, policy_verdict, handed_over, socks5_handoff}
use smithproxy.Socks.{
  Cx, Env, Ended, done, raised, ComKind, ssl_com, LeftCx, RightCx, RequestError, no_error,
  malformed_data, State, wait_policy, handoff, zombie, reject,
}
use smithproxy.Socks.Reply.{give_verdict}

-- What the contexts are told by the system and by their com()s: the source of the socket, the
-- protocol family of a new com, the names that the context prepared for the client gets from its
-- socket, and the slave that the context prepared for the server has.
pub record Surroundings : Type 0 where
  pub source : Option (Text × Text)
  pub l3_proto : ℕ
  pub shadow_host : Text
  pub shadow_port : Text
  pub slave_l3_proto : ℕ
  pub slave_l4_proto : ℕ
  pub slave_bypass : Option Bool

unfoldable pub bypass_of : ComKind → Option Bool
bypass_of ssl_com = some false
bypass_of kind = none

unfoldable pub left_shadow : Surroundings → ℕ → LeftCx → MitmCx
left_shadow s l4 l = record {
  host = s.shadow_host;
  port = s.shadow_port;
  l3_proto = s.l3_proto;
  l4_proto = l4;
  bypass = bypass_of l.left_com;
  waiting_for_peercom = true;
  matched_policy = minus_one;
  nonlocal_src = false;
  nonlocal_src_host = [];
  nonlocal_src_port = 0;
}

unfoldable pub seen_cx : Cx → HostCx
seen_cx cx = record { host = cx.host; port = cx.port; l4_proto = some cx.l4_proto }

unfoldable pub handed_from : Surroundings → Cx → Handed
handed_from s cx = record {
  dst_host = cx.nonlocal_dst_host;
  dst_port = cx.nonlocal_dst_port;
  source = s.source;
  l3_proto = s.l3_proto;
}

-- The exceptions of `verdict` leave the proxy's handler, too.
unfoldable pub given : Ended ℕ → Outcome Cx
given (done r) = value r.1
given (raised e cx) = throws e
given Ended.undefined = undefined

module _ (env : SessionEnv) (socks : Env) (s : Surroundings) where
  unfoldable pub right_shadow : RightCx → MitmCx
  right_shadow r = record {
    host = r.right_host;
    port = env.format_d (pos r.right_port);
    l3_proto = s.slave_l3_proto;
    l4_proto = s.slave_l4_proto;
    bypass = s.slave_bypass;
    waiting_for_peercom = true;
    matched_policy = minus_one;
    nonlocal_src = false;
    nonlocal_src_host = r.src_host;
    nonlocal_src_port = r.src_port;
  }

  unfoldable pub right_seen : Option RightCx → Option HostCx
  right_seen none = none
  right_seen (some r) = some (record {
    host = r.right_host;
    port = env.format_d (pos r.right_port);
    l4_proto = some s.slave_l4_proto;
  })

  -- After the hand-off: the store, the proxy, the SOCKS context if it still is there, and what the
  -- context of the server has to write.
  abbrev pub Handling : Type 0
  Handling = Store env.policy_env.lib.Cidr × Proxy × Option Cx × List ℕ

  abbrev pub out_of_table : Store env.policy_env.lib.Cidr → Proxy → Bool
  out_of_table st p =
      ltb_ℤ p.matched_policy (pos 0) || leb_ℤ (pos (length st.rules)) p.matched_policy

  unfoldable pub keep_address : Rule env.policy_env.lib.Cidr → MitmCx → MitmCx
  keep_address rule target =
      if eqb_ℤ rule.nat nat_none then record target { nonlocal_src = true } else target

  -- A missing context is dereferenced before the code asks for it.
  unfoldable pub udp_pair :
      Store env.policy_env.lib.Cidr → Proxy → Cx → Option LeftCx → Option RightCx → Outcome Handling
  udp_pair st p cx left none = undefined
  udp_pair st p cx none (some r) = undefined
  udp_pair st p cx (some l) (some r) =
      let n_cx = record (left_shadow s cx.l4_proto l) { matched_policy = p.matched_policy } in
      do
        rule ← rule_at env st.rules p.matched_policy
        (st', p') ← route_policy env (lookup_policy st.rules p.matched_policy) st (record p {
          rs = p.rs ++ match_cx p.matched_policy (keep_address rule (right_shadow r)) ∷ [];
        })
        (rules', p'', m) ← policy_apply env st'.rules (some n_cx) p' p'.matched_policy
        value (
          record st' { rules = rules' },
          handed_over env rules' n_cx l.left_dst_port p'' m,
          some (record cx { right = none }),
          l.left_readbuf,
        )

  unfoldable pub socks5_handoff_udp : Store env.policy_env.lib.Cidr → Proxy → Cx → Outcome Handling
  socks5_handoff_udp st p cx =
      if out_of_table st p
      then value (st, record p { dead = true }, some cx, [])
      else udp_pair st p cx cx.left cx.right

  -- Over TCP the context is deleted, unless its policy is not in the table.
  unfoldable pub handoff_tcp : Store env.policy_env.lib.Cidr → Proxy → ℕ → Cx → Outcome Handling
  handoff_tcp st p l4 cx = do
    (st', p') ← socks5_handoff env st p l4 (handed_from s cx)
    value (st', p', if out_of_table st p then some cx else none, [])

  -- `l4` is the protocol of the proxy's com().
  unfoldable pub after_verdict : Store env.policy_env.lib.Cidr → Proxy → ℕ → Cx → Outcome Handling
  after_verdict st p l4 cx =
      if l4 == sock_dgram
      then (if cx.l4_proto == sock_dgram
          then socks5_handoff_udp st p (record cx { state = zombie })
          else handoff_tcp st p l4 (record cx { state = zombie }))
      else value (st, p, some cx, [])

  unfoldable pub on_wait_policy : Store env.policy_env.lib.Cidr → Proxy → ℕ → Cx → Outcome Handling
  on_wait_policy st p l4 cx = do
    (rules', p', v) ←
        policy_verdict env st.rules p cx.req_cmd (some (seen_cx cx)) (right_seen cx.right)
    cx' ← given (give_verdict socks v cx)
    after_verdict (record st { rules = rules' }) p' l4 cx'

  unfoldable pub on_handoff : Store env.policy_env.lib.Cidr → Proxy → ℕ → Cx → Outcome Handling
  on_handoff st p l4 cx =
      if cx.l4_proto == sock_dgram
      then value (st, p, some (record cx { state = zombie }), [])
      else handoff_tcp st p l4 (record cx { state = zombie })

  unfoldable pub on_state :
      State → Store env.policy_env.lib.Cidr → Proxy → ℕ → Cx → Outcome Handling
  on_state wait_policy st p l4 cx = on_wait_policy st p l4 cx
  on_state handoff st p l4 cx = on_handoff st p l4 cx
  on_state other st p l4 cx = value (st, p, some cx, [])

  unfoldable pub on_request :
      RequestError → Store env.policy_env.lib.Cidr → Proxy → ℕ → Cx → Outcome Handling
  on_request no_error st p l4 cx = on_state cx.state st p l4 cx
  on_request malformed_data st p l4 cx = value (st, p, some (record cx { in_error = true }), [])
  on_request other st p l4 cx = do
    cx' ← given (give_verdict socks reject cx)
    value (st, p, some cx', [])

  unfoldable pub on_left_message : Store env.policy_env.lib.Cidr → Proxy → ℕ → Cx → Outcome Handling
  on_left_message st p l4 cx = on_request cx.socks_error st p l4 cx
