-- ===== src/Session/Policy.antt =====
-- `policy` of src/proxy/proxymaker.cpp: a new proxy and its contexts are told what policy they
-- matched, and the routing of that policy is followed.
use smithproxy.Base.{ℕ, Bool, true, false, Option, none, some, get_elem?, set, if◌then◌else◌}
use smithproxy.Base.Int.{ℤ, pos, minus_one, ltb_ℤ}
use smithproxy.Base.Outcome.{Outcome, value, undefined, ◌>>=◌}
use smithproxy.Policy.Rule.{Rule}
use smithproxy.Policy.Table.{lookup_policy}
use smithproxy.Session.{
  MitmCx, Proxy, Routing, Store, SessionEnv, policy_implicit_pass, first_left, first_right,
  at_first_left, at_first_right,
}
use smithproxy.Session.Route.{route}
use smithproxy.Session.Apply.{policy_apply}

unfoldable pub set_bypass : MitmCx → MitmCx
set_bypass cx = record cx { bypass = elim cx.bypass [ none ↦ none | some b ↦ some true ] }

unfoldable pub match_cx : ℤ → MitmCx → MitmCx
match_cx n cx = record cx { matched_policy = n }

-- Both contexts and the proxy are told which policy they matched.
unfoldable pub mark_policy : ℤ → Proxy → Proxy
mark_policy n p = record (at_first_right (match_cx n) (at_first_left (match_cx n) p)) {
  matched_policy = n;
}

module _ (env : SessionEnv) where
  -- The routing of the policy's own profile; a proxy that could not be routed goes on.
  unfoldable pub route_found :
      ℕ
      → Option Routing
      → Store env.policy_env.lib.Cidr
      → Proxy
      → Outcome (Store env.policy_env.lib.Cidr × Proxy)
  route_found k none st p = value (st, p)
  route_found k (some r) st p = do
    (r', p', ok) ← route env p r
    value (record st { routings = set st.routings k r' }, p')

  unfoldable pub route_profile :
      Option ℕ
      → Store env.policy_env.lib.Cidr
      → Proxy
      → Outcome (Store env.policy_env.lib.Cidr × Proxy)
  route_profile none st p = value (st, p)
  route_profile (some k) st p = route_found k (get_elem? st.routings k) st p

  unfoldable pub route_policy :
      Option (Rule env.policy_env.lib.Cidr)
      → Store env.policy_env.lib.Cidr
      → Proxy
      → Outcome (Store env.policy_env.lib.Cidr × Proxy)
  route_policy none st p = value (st, p)
  route_policy (some rule) st p = route_profile rule.profile_routing st p

  unfoldable pub marked :
      Store env.policy_env.lib.Cidr
      → Proxy
      → ℤ
      → Option MitmCx
      → Option MitmCx
      → Outcome (Store env.policy_env.lib.Cidr × Proxy × Bool)
  marked st p n none right = value (st, p, false)
  marked st p n (some left) none = value (st, p, false)
  marked st p n (some left) (some right) =
      if ltb_ℤ n (pos 0) then value (st, mark_policy n p, true) else do
        (st', p') ← route_policy (lookup_policy st.rules n) st (mark_policy n p)
        value (st', p', true)

  unfoldable pub bypassed : Proxy → Option MitmCx → Option MitmCx → Outcome Proxy
  bypassed p none right = undefined
  bypassed p (some left) none = undefined
  bypassed p (some left) (some right) =
      value (at_first_right set_bypass (at_first_left set_bypass p))

  unfoldable pub policy :
      Store env.policy_env.lib.Cidr
      → Proxy
      → Bool
      → Outcome (Store env.policy_env.lib.Cidr × Proxy × Bool)
  policy st p true = do
    p' ← bypassed p (first_left p) (first_right p)
    marked st p' policy_implicit_pass (first_left p') (first_right p')
  policy st p false = do
    (rules', p', n) ← policy_apply env st.rules (first_left p) p minus_one
    marked (record st { rules = rules' }) p' n (first_left p') (first_right p')
