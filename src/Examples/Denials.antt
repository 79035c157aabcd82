-- ===== src/Examples/Denials.antt =====
-- A datagram over SOCKS that a rule denies.
use smithproxy.Base.{ℕ, true, [], ◌∷◌, none, some, Text, ◌≡◌, refl}
use smithproxy.Base.Tests.{same_text}
use smithproxy.Base.Int.{pos}
use smithproxy.Base.Outcome.{value}
use smithproxy.Policy.Address.{address_match, cidr_match}
use smithproxy.Policy.Match.{match_lr, tests_lr, match_proto_lr, count_match}
use smithproxy.Policy.Rule.{
  match_proto_vecx, match_proto_all, match_proto_cx, match_com, sock_2_net, match_addrgrp_vecx,
  match_addr_any, match_addrgrp_cx, match_rangegrp_vecx, match_range_any, match_rangegrp_cx,
  match_addrs, Rule, action_deny, action_pass,
}
use smithproxy.Policy.Table.{
  policy_match_lr, policy_action, policy_prof_auth, auth_at, lookup_policy, match_from, action_at,
}
use smithproxy.Session.{Proxy, Store, new_proxy}
use smithproxy.Session.Identity.{socks5_handoff_resolve_identity, auth_profile, profile_at}
use smithproxy.Session.Apply.{policy_apply, resolve_policy, apply_profiles, apply_auth}
use smithproxy.Session.Policy.{match_cx, route_policy, route_profile}
use smithproxy.Session.Handoff.{policy_verdict, handed_over}
use smithproxy.Session.Message.{
  Surroundings, on_left_message, on_request, on_state, on_wait_policy, after_verdict,
  socks5_handoff_udp, udp_pair, keep_address, left_shadow, right_shadow, right_seen, seen_cx,
  bypass_of, given,
}
use smithproxy.Session.Passed.{Passed, on_left_message-Passed}
use smithproxy.Socks.{Cx, udp_com, wait_policy, zombie, reject}
use smithproxy.Socks.Reply.{give_verdict, answer_verdict, is_accept, process_socks_reply}
use smithproxy.Examples.{server_rule}
use smithproxy.Examples.Sessions.{plain_session, right_cx}
use smithproxy.Examples.Requests.{plain_env, tcp_cx}

abbrev surroundings : Surroundings
surroundings = record {
  source = some (49 ∷ [], 50 ∷ []);
  l3_proto = 2;
  shadow_host = 49 ∷ [];
  shadow_port = 50 ∷ [];
  slave_l3_proto = 2;
  slave_l4_proto = 2;
  slave_bypass = none;
}

abbrev deny_rule : Rule Text
deny_rule = record (server_rule action_deny) { proto = 0 }

-- The first rule is disabled, the second one denies.
abbrev deny_table : ℕ → Store Text
deny_table matches = record {
  rules =
      record (server_rule action_pass) { is_disabled = true }
      ∷ record deny_rule { cnt_matches = matches }
      ∷ [];
  routings = [];
}

abbrev datagram : Cx
datagram = record (tcp_cx [] wait_policy []) {
  l4_proto = 2;
  version = 0;
  nonlocal_dst_host = 57 ∷ [];
  nonlocal_dst_port = 80;
  left = some (record {
    left_com = udp_com;
    left_dst_host = 57 ∷ [];
    left_dst_port = 80;
    left_readbuf = 104 ∷ 105 ∷ [];
  });
  right =
      some (record { right_host = 57 ∷ []; right_port = 80; src_host = 49 ∷ []; src_port = 50 });
}

abbrev forwarded : Proxy
forwarded = record (new_proxy 2) {
  rs =
      record right_cx {
        l4_proto = 2;
        waiting_for_peercom = true;
        matched_policy = pos 1;
        nonlocal_src_host = 49 ∷ [];
        nonlocal_src_port = 50;
      }
      ∷ [];
  matched_policy = pos 1;
  connected = true;
}

-- The context is told to reject the datagram, and the datagram is sent on all the same.
forwards :
    on_left_message plain_session plain_env surroundings (deny_table 0) (new_proxy 2) 2 datagram
    ≡ value (
      deny_table 1,
      forwarded,
      some (record datagram { state = zombie; verdict = reject; right = none }),
      104 ∷ 105 ∷ [],
    )
unfolding on_left_message on_request on_state on_wait_policy after_verdict socks5_handoff_udp
    udp_pair keep_address left_shadow right_shadow right_seen seen_cx bypass_of given policy_verdict
    handed_over socks5_handoff_resolve_identity policy_apply resolve_policy apply_profiles
    apply_auth policy_action action_at route_policy route_profile match_cx lookup_policy
    auth_profile profile_at policy_prof_auth auth_at policy_match_lr match_from match_lr tests_lr
    match_proto_lr match_proto_vecx match_proto_all match_proto_cx match_com sock_2_net
    match_addrgrp_vecx match_addr_any match_addrgrp_cx match_rangegrp_vecx match_range_any
    match_rangegrp_cx match_addrs address_match cidr_match count_match same_text give_verdict
    answer_verdict is_accept process_socks_reply
forwards = refl

on_left_message-Passed_example :
    Passed plain_session plain_env surroundings (deny_table 0) (new_proxy 2) 2 datagram
on_left_message-Passed_example =
    on_left_message-Passed plain_session plain_env surroundings (deny_table 0) (deny_table 1)
      (new_proxy 2) forwarded 2 datagram
      (some (record datagram { state = zombie; verdict = reject; right = none })) (104 ∷ 105 ∷ [])
      forwards λ e. absurd (cc)
