-- ===== src/Examples/Handoffs.antt =====
-- Concrete SOCKS requests and a hand-off.
use smithproxy.Base.{true, [], ◌∷◌, some, Text, ◌≡◌, ◌↔◌, refl}
use smithproxy.Base.Int.{pos, minus_one}
use smithproxy.Base.Outcome.{value}
use smithproxy.Policy.Rule.{action_deny, action_pass}
use smithproxy.Policy.Table.{
  policy_match_lr, policy_action, policy_prof_auth, auth_at, lookup_policy, match_from, action_at,
}
use smithproxy.Session.{Proxy, Store, new_proxy}
use smithproxy.Session.Identity.{socks5_handoff_resolve_identity, auth_profile, profile_at}
use smithproxy.Session.Apply.{policy_apply, resolve_policy, apply_profiles, apply_auth}
use smithproxy.Session.Policy.{match_cx, route_policy, route_profile}
use smithproxy.Session.Handoff.{
  handoff_from, handed_cx, target_cx, keep_client, apply_both, handed_over, Handed, socks5_handoff,
  policy_verdict,
}
use smithproxy.Session.Verdicts.{policy_verdict-reject}
use smithproxy.Socks.{Verdict, accept, reject, cmd_connect}
use smithproxy.Socks.Target.{is_tls_port}
use smithproxy.Examples.{client, server, server_rule}
use smithproxy.Examples.Sessions.{plain_session, left_cx, right_cx, pair}

policy_verdict-reject_example :
    (v : Verdict) × (policy_verdict plain_session []
        (pair minus_one)
        cmd_connect
        (some client)
        (some server)
      ≡ value ([], pair minus_one, v))
    × ((v ≡ reject) ↔ (policy_action {Cidr = Text} [] minus_one ≡ action_deny))
    × (minus_one ≡ minus_one → v ≡ accept)
unfolding policy_match_lr match_from
policy_verdict-reject_example =
    policy_verdict-reject plain_session [] [] (pair minus_one) (some client) (some server) minus_one
      refl

abbrev handed : Handed
handed = record {
  dst_host = 57 ∷ [];
  dst_port = 80;
  source = some (49 ∷ [], 50 ∷ []);
  l3_proto = 2;
}

-- Policy 1 passes, so a request that it matched is handed off and connected.
abbrev pass_table : Store Text
pass_table = record {
  rules = server_rule action_deny ∷ server_rule action_pass ∷ [];
  routings = [];
}

abbrev asking : Proxy
asking = record (new_proxy 2) { matched_policy = pos 1 }

abbrev handed_off : Proxy
handed_off = record asking {
  lda = left_cx (pos 1) ∷ [];
  rs = record right_cx { matched_policy = pos 1 } ∷ [];
  connected = true;
}

hands_off : socks5_handoff plain_session pass_table asking 1 handed ≡ value (pass_table, handed_off)
unfolding socks5_handoff handoff_from handed_cx target_cx keep_client apply_both handed_over
    socks5_handoff_resolve_identity is_tls_port policy_apply resolve_policy apply_profiles
    apply_auth policy_action action_at route_policy route_profile match_cx lookup_policy
    auth_profile profile_at policy_prof_auth auth_at
hands_off = refl
