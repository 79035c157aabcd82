-- ===== src/Session/Apply.antt =====
-- CfgFactory::policy_apply of src/service/cfgapi/cfgapi.cpp. The content, detection, TLS and DNS
-- profiles and the feature filters act on parts of the contexts that are not modelled.
use smithproxy.Base.{List, Option, none, some, if◌then◌else◌}
use smithproxy.Base.Int.{ℤ, pos, ltb_ℤ, eqb_ℤ}
use smithproxy.Base.Outcome.{Outcome, value, undefined, ◌>>=◌}
use smithproxy.Policy.Rule.{Rule, action_pass}
use smithproxy.Policy.Table.{policy_action, policy_match_proxy}
use smithproxy.Session.{MitmCx, Proxy, AuthProfile, SessionEnv, sides}
use smithproxy.Session.Identity.{auth_profile}

unfoldable pub apply_auth : Option AuthProfile → Proxy → Proxy
apply_auth none p = p
apply_auth (some a) p = record p {
  opt_auth_authenticate = a.authenticate;
  opt_auth_resolve = a.resolve;
}

module _ (env : SessionEnv) where
  unfoldable pub apply_profiles : List (Rule env.policy_env.lib.Cidr) → ℤ → Proxy → Proxy
  apply_profiles rules n p =
      if eqb_ℤ (policy_action rules n) action_pass
      then apply_auth (auth_profile env rules n) p
      else p

  -- A given index below 1 is matched again.
  unfoldable pub resolve_policy :
      List (Rule env.policy_env.lib.Cidr)
      → Proxy
      → ℤ
      → Outcome (List (Rule env.policy_env.lib.Cidr) × ℤ)
  resolve_policy rules p n =
      if ltb_ℤ n (pos 1)
      then policy_match_proxy env.policy_env rules (some (sides p))
      else value (rules, n)

  -- The log lines follow the originator.
  unfoldable pub policy_apply :
      List (Rule env.policy_env.lib.Cidr)
      → Option MitmCx
      → Proxy
      → ℤ
      → Outcome (List (Rule env.policy_env.lib.Cidr) × Proxy × ℤ)
  policy_apply rules none p n = undefined
  policy_apply rules (some originator) p n = do
    (rules', m) ← resolve_policy rules p n
    value (rules', apply_profiles rules' m p, m)
