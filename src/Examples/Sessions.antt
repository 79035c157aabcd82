-- ===== src/Examples/Sessions.antt =====
-- Concrete sessions.
use smithproxy.Base.{true, false, [], ◌∷◌, none, some, Text, ◌≡◌, ◌↔◌, ◌⊎◌, refl, length}
use smithproxy.Base.Tests.{same_text}
use smithproxy.Base.Int.{ℤ, pos, minus_one}
use smithproxy.Base.Outcome.{value}
use smithproxy.Policy.Address.{address_match, cidr_match}
use smithproxy.Policy.Match.{match_proxy, match_sides, tests_proxy, count_match}
use smithproxy.Policy.Rule.{
  match_proto_vecx, match_proto_all, match_proto_cx, match_com, sock_2_net, match_addrgrp_vecx,
  match_addr_any, match_addrgrp_cx, match_rangegrp_vecx, match_range_any, match_rangegrp_cx,
  match_addrs, Rule, action_deny, action_pass,
}
use smithproxy.Policy.Table.{
  policy_action, policy_match_proxy, policy_prof_auth, auth_at, lookup_policy, match_from,
  action_at,
}
use smithproxy.Session.{
  MitmCx, Proxy, SubAuth, Store, Routing, SessionEnv, lb_rr, sides, first_left, first_right,
  first_of, at_first, at_first_left, at_first_right, new_proxy,
}
use smithproxy.Session.Route.{route, update, lb_candidates, expand_candidates, count_up}
use smithproxy.Session.Identity.{authorize, auth_profile, profile_at, get_groups}
use smithproxy.Session.Apply.{policy_apply, resolve_policy, apply_profiles, apply_auth}
use smithproxy.Session.Policy.{policy, marked, mark_policy, match_cx, route_policy, route_profile}
use smithproxy.Session.Accept.{
  from_source, magic_target, made, enforce, admit, setup_snat, snat_both, no_nat, connect,
  connect_both, Accepted, on_left_new, make,
}
use smithproxy.Session.Balance.{Routed, route-Routed}
use smithproxy.Session.Authorized.{Permitted, authorize-Permitted}
use smithproxy.Session.Opened.{Opened, on_left_new-Opened}
use smithproxy.Session.Denied.{on_left_new-denied}
use smithproxy.Examples.{ports, server_rule}

abbrev staff_sub : SubAuth
staff_sub = record { element_name = 97 ∷ []; profile_tls = false; profile_alg_dns = false }

abbrev pub plain_session : SessionEnv
plain_session = record {
  policy_env = ports;
  auth_profiles =
      record { authenticate = true; resolve = true; sub_policies = staff_sub ∷ [] } ∷ [];
  lookup_port = λ t. none;
  expand_to_cidr = λ ts af. ts;
  tenant_magic_ip = 109 ∷ [];
  tenant_index = pos 0;
  portal_port_http = 49 ∷ [];
  portal_port_https = 49 ∷ [];
  resolve_identity = λ af t. true;
  ip4_get_groups = λ t. some ((97 ∷ []) ∷ []);
  ip6_get_groups = λ t. none;
  now = 100;
  stoi = λ t. value (pos (length t));
  try_down_cast_u16 = λ n. value 1;
  format_d = λ n. 56 ∷ 48 ∷ [];
  crc32 = λ t. length t;
}

abbrev pub left_cx : ℤ → MitmCx
left_cx matched = record {
  host = 49 ∷ [];
  port = 50 ∷ [];
  l3_proto = 2;
  l4_proto = 1;
  bypass = none;
  waiting_for_peercom = true;
  matched_policy = matched;
  nonlocal_src = false;
  nonlocal_src_host = [];
  nonlocal_src_port = 0;
}

abbrev pub right_cx : MitmCx
right_cx = record (left_cx minus_one) {
  host = 57 ∷ [];
  port = 56 ∷ 48 ∷ [];
  waiting_for_peercom = false;
}

abbrev pub pair : ℤ → Proxy
pair matched = record (new_proxy 2) {
  lda = left_cx matched ∷ [];
  rs = right_cx ∷ [];
  matched_policy = matched;
}

abbrev routing : Routing
routing = record {
  dnat_addresses = (97 ∷ []) ∷ (98 ∷ []) ∷ [];
  dnat_ports = [];
  dnat_lb_method = lb_rr;
  rr_counter = 0;
  last_refresh = 0;
  candidates_v4 = [];
  candidates_v6 = [];
}

route-Routed_example :
    Routed plain_session
      (lb_candidates plain_session (update plain_session routing) 2)
      (pair minus_one)
      (route plain_session (pair minus_one) routing)
      (update plain_session routing)
unfolding lb_candidates update expand_candidates count_up
route-Routed_example =
    route-Routed plain_session (pair minus_one) routing
      ((λ e. absurd (cc)), ((λ e. absurd (cc)), tt))

abbrev auth_rule : Rule Text
auth_rule = record (server_rule action_pass) { profile_auth = some 0 }

abbrev asked_proxy : Proxy
asked_proxy = record (pair (pos 0)) { opt_auth_authenticate = true }

authorize-Permitted_example :
    ((authorize plain_session (auth_rule ∷ []) asked_proxy).1 ≡ true)
    ↔ ((true ≡ true) × Permitted (staff_sub ∷ []) (get_groups plain_session 2 (49 ∷ [])))
unfolding first_left first_right auth_profile first_of profile_at policy_prof_auth auth_at
    lookup_policy
authorize-Permitted_example =
    authorize-Permitted plain_session (auth_rule ∷ []) asked_proxy (left_cx (pos 0)) right_cx
      (record { authenticate = true; resolve = true; sub_policies = staff_sub ∷ [] }) refl refl refl
      refl

abbrev pub table : ℤ → Store Text
table action = record { rules = server_rule action ∷ []; routings = [] }

-- `table` once its rule has matched.
abbrev counted : ℤ → Store Text
counted action = record {
  rules = record (server_rule action) { cnt_matches = 1 } ∷ [];
  routings = [];
}

abbrev pub accepted : Accepted
accepted = record {
  cx = left_cx minus_one;
  nonlocal_dst_resolved = true;
  source = some (49 ∷ [], 50 ∷ []);
  dst_host = 57 ∷ [];
  dst_port = 80;
  slave_l4_proto = 1;
  slave_bypass = none;
}

made_pair :
    make 2
      (some (left_cx minus_one))
      (some (record right_cx { l3_proto = 0; waiting_for_peercom = false }))
    ≡ some (pair minus_one)
unfolding make
made_pair = refl

matches :
    policy_match_proxy ports (table action_deny).rules (some (sides (pair minus_one)))
    ≡ value ((counted action_deny).rules, pos 0)
unfolding policy_match_proxy match_from match_proxy match_sides tests_proxy match_proto_vecx
    match_proto_all match_proto_cx match_com sock_2_net match_addrgrp_vecx match_addr_any
    match_addrgrp_cx match_rangegrp_vecx match_range_any match_rangegrp_cx match_addrs address_match
    cidr_match count_match same_text
matches = refl

on_left_new-denied_example :
    (q : Proxy) × (on_left_new plain_session (table action_deny) [] accepted
      ≡ value (counted action_deny, record q { connected = true } ∷ []))
on_left_new-denied_example =
    on_left_new-denied plain_session (table action_deny) [] accepted (49 ∷ []) (50 ∷ []) (pos 1)
      (pair minus_one) (counted action_deny).rules 0
      (record (server_rule action_deny) { cnt_matches = 1 }) refl refl (λ e. absurd (cc)) refl
      made_pair matches refl refl refl

-- The proxy of a session that `table` lets pass.
abbrev opened : Proxy
opened = record (pair (pos 0)) {
  rs = record right_cx { matched_policy = pos 0 } ∷ [];
  connected = true;
}

opens :
    on_left_new plain_session (table action_pass) [] accepted
    ≡ value (counted action_pass, opened ∷ [])
unfolding on_left_new from_source magic_target made make policy policy_apply resolve_policy
    apply_profiles apply_auth policy_action action_at marked mark_policy match_cx at_first_left
    at_first_right at_first route_policy route_profile enforce admit authorize setup_snat snat_both
    no_nat connect connect_both first_left first_right first_of lookup_policy auth_profile
    profile_at policy_prof_auth auth_at same_text policy_match_proxy match_from match_proxy
    match_sides tests_proxy match_proto_vecx match_proto_all match_proto_cx match_com sock_2_net
    match_addrgrp_vecx match_addr_any match_addrgrp_cx match_rangegrp_vecx match_range_any
    match_rangegrp_cx match_addrs address_match cidr_match count_match
opens = refl

on_left_new-Opened_example :
    (opened ∷ [] ≡ [])
    ⊎ ((p : Proxy) × (opened ∷ [] ≡ p ∷ [])
        × (p.connected ≡ true)
        × Opened plain_session (table action_pass) accepted (counted action_pass) p)
on_left_new-Opened_example =
    on_left_new-Opened plain_session (table action_pass) (counted action_pass) [] (opened ∷ [])
      accepted opens
