-- ===== src/Session/Marked.antt =====
-- The steps of a session's policy in src/proxy/proxymaker.cpp keep the index that was matched.
use smithproxy.Base.{
  ℕ, Bool, true, false, List, Option, none, some, Text, get_elem?, ◌≡◌, refl, if-keeps,
}
use smithproxy.Base.Int.{ℤ, pos, minus_one, ltb_ℤ}
use smithproxy.Base.Outcome.{value, Ends, Ends->>=, Ends-any, Ends-self, Ends-weaken}
use smithproxy.Policy.Rule.{Rule}
use smithproxy.Policy.Table.{policy_match_proxy}
use smithproxy.Session.{
  MitmCx, Proxy, AuthProfile, Routing, Store, SessionEnv, policy_implicit_pass, first_left,
  first_right, sides,
}
use smithproxy.Session.Route.{route, route_to, redirect, get_dnat_target, update}
use smithproxy.Session.Apply.{policy_apply, apply_auth, resolve_policy}
use smithproxy.Session.Policy.{
  mark_policy, route_found, route_profile, route_policy, marked, bypassed, policy,
}

apply_auth-matched :
    (a : Option AuthProfile) (p : Proxy) → (apply_auth a p).matched_policy ≡ p.matched_policy
unfolding apply_auth
apply_auth-matched none p = refl
apply_auth-matched (some a) p = refl

module _ (env : SessionEnv) where
  route_to-matched :
      (t : Option Text × Option Text) (p : Proxy)
      → (route_to env t p).0.matched_policy ≡ p.matched_policy
  unfolding route_to redirect
  route_to-matched (none, none) p = refl
  route_to-matched (none, some t) p = refl
  route_to-matched (some h, port) p = refl

  -- The policy list and the proxy's policy are as they were.
  abbrev Kept :
      Store env.policy_env.lib.Cidr → Proxy → Store env.policy_env.lib.Cidr → Proxy → Type 0
  Kept st p st' p' = (st'.rules ≡ st.rules) × (p'.matched_policy ≡ p.matched_policy)

  route-matched :
      (p : Proxy) (r : Routing) → Ends (λ x. x.1.matched_policy ≡ p.matched_policy) (route env p r)
  unfolding route
  route-matched p r =
      Ends->>= (λ x. Unit {0}) _ (get_dnat_target env p (update env r)) _ (Ends-any _)
        λ t _. route_to-matched t p

  route_found-Kept :
      (k : ℕ) (r : Option Routing) (st : Store env.policy_env.lib.Cidr) (p : Proxy)
      → Ends (λ x. Kept st p x.0 x.1) (route_found env k r st p)
  unfolding route_found
  route_found-Kept k none st p = (refl, refl)
  route_found-Kept k (some r) st p =
      Ends->>= (λ x. x.1.matched_policy ≡ p.matched_policy) _ (route env p r) _ (route-matched p r)
        λ x h. (refl, h)

  route_profile-Kept :
      (k : Option ℕ) (st : Store env.policy_env.lib.Cidr) (p : Proxy)
      → Ends (λ x. Kept st p x.0 x.1) (route_profile env k st p)
  unfolding route_profile
  route_profile-Kept none st p = (refl, refl)
  route_profile-Kept (some k) st p = route_found-Kept k (get_elem? st.routings k) st p

  route_policy-Kept :
      (rule : Option (Rule env.policy_env.lib.Cidr)) (st : Store env.policy_env.lib.Cidr)
      (p : Proxy)
      → Ends (λ x. Kept st p x.0 x.1) (route_policy env rule st p)
  unfolding route_policy
  route_policy-Kept none st p = (refl, refl)
  route_policy-Kept (some rule) st p = route_profile-Kept rule.profile_routing st p

  abbrev Marks :
      Store env.policy_env.lib.Cidr → ℤ → Store env.policy_env.lib.Cidr × Proxy × Bool → Type 0
  Marks st n (st', p', ok) = (st'.rules ≡ st.rules) × (ok ≡ true → p'.matched_policy ≡ n)

  marked-Marks :
      (st : Store env.policy_env.lib.Cidr) (p : Proxy) (n : ℤ) (l r : Option MitmCx)
      → Ends (Marks st n) (marked env st p n l r)
  unfolding marked mark_policy
  marked-Marks st p n none r = (refl, λ h. absurd (cc))
  marked-Marks st p n (some l) none = (refl, λ h. absurd (cc))
  marked-Marks st p n (some l) (some r) =
      if-keeps (Ends (Marks st n)) (ltb_ℤ n (pos 0)) _ _ (refl, λ h. refl)
        (Ends->>= (λ x. Kept st (mark_policy n p) x.0 x.1) _ _ _
          (route_policy-Kept _ st (mark_policy n p)) λ (st', p') (a, b). (a, λ h. b))

  -- How the policy's answer came about: the portal's implicit pass, or the match of the new proxy.
  abbrev pub Matched :
      Store env.policy_env.lib.Cidr → Proxy → Bool → Store env.policy_env.lib.Cidr → ℤ → Type 0
  Matched st p true st' n = n ≡ policy_implicit_pass
  Matched st p false st' n =
      policy_match_proxy env.policy_env st.rules (some (sides p)) ≡ value (st'.rules, n)

  policy_apply-match :
      (rules : List (Rule env.policy_env.lib.Cidr)) (l : Option MitmCx) (p : Proxy)
      → Ends
          (λ x. policy_match_proxy env.policy_env rules (some (sides p)) ≡ value (x.0, x.2))
          (policy_apply env rules l p minus_one)
  unfolding policy_apply resolve_policy
  policy_apply-match rules none p = tt
  policy_apply-match rules (some l) p =
      Ends->>= (λ x. policy_match_proxy env.policy_env rules (some (sides p)) ≡ value x) _
        (policy_match_proxy env.policy_env rules (some (sides p))) _ (Ends-self _)
        λ (rules', m) h. h

  pub policy-Matched :
      (st : Store env.policy_env.lib.Cidr) (p : Proxy) (magic : Bool)
      → Ends (λ x. x.2 ≡ true → Matched st p magic x.0 x.1.matched_policy) (policy env st p magic)
  unfolding policy
  policy-Matched st p true =
      Ends->>= (λ x. Unit {0}) _ (bypassed env p (first_left p) (first_right p)) _ (Ends-any _)
        λ p' _.
          Ends-weaken (Marks st policy_implicit_pass) _ _
            (marked-Marks st p' policy_implicit_pass _ _) λ (st', p'', ok) (a, b) h. b h
  policy-Matched st p false =
      Ends->>= (λ x. policy_match_proxy env.policy_env st.rules (some (sides p)) ≡ value (x.0, x.2))
        _ _ _ (policy_apply-match st.rules (first_left p) p)
        λ (rules', p', n) e.
          Ends-weaken (Marks (record st { rules = rules' }) n) _ _
            (marked-Marks (record st { rules = rules' }) p' n _ _)
            λ (st', p'', ok) (a, b) h. let c = b h in rw (a, c) e
