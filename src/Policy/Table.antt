-- ===== src/Policy/Table.antt =====
-- The policy table of src/service/cfgapi/cfgapi.cpp: the first match, and the action of an index.
use smithproxy.Base.{ℕ, ◌+◌, Bool, List, [], ◌∷◌, Option, none, some, get_elem?, if◌then◌else◌}
use smithproxy.Base.Int.{ℤ, pos, negsuc, minus_one}
use smithproxy.Base.Outcome.{Outcome, value, ◌>>=◌}
use smithproxy.Policy.Rule.{Rule, HostCx, ProxySides, action_deny}
use smithproxy.Policy.Match.{PolicyEnv, match_lr, match_proxy}

module _ {Cidr : Type 0} where
  -- The loop of both overloads of policy_match over a rule's match, with the index so far.
  unfoldable pub match_from :
      (Rule Cidr → Outcome (Rule Cidr × Bool))
      → ℕ
      → List (Rule Cidr)
      → Outcome (List (Rule Cidr) × ℤ)
  match_from test x [] = value ([], minus_one)
  match_from test x (rule ∷ rules) = do
    (rule', r) ← test rule
    if r
        then value (rule' ∷ rules, pos x)
        else do (rules', n) ← match_from test (x + 1) rules; value (rule' ∷ rules', n)

  unfoldable pub action_at : Option (Rule Cidr) → ℤ
  action_at none = action_deny
  action_at (some rule) = rule.action

  -- -1 below the table, and deny above it.
  unfoldable pub policy_action : List (Rule Cidr) → ℤ → ℤ
  policy_action rules (negsuc n) = minus_one
  policy_action rules (pos n) = action_at (get_elem? rules n)

  -- policy_rule and lookup_policy: null outside the table.
  unfoldable pub lookup_policy : List (Rule Cidr) → ℤ → Option (Rule Cidr)
  lookup_policy rules (negsuc n) = none
  lookup_policy rules (pos n) = get_elem? rules n

  unfoldable pub auth_at : Option (Rule Cidr) → Option ℕ
  auth_at none = none
  auth_at (some rule) = rule.profile_auth

  unfoldable pub policy_prof_auth : List (Rule Cidr) → ℤ → Option ℕ
  policy_prof_auth rules index = auth_at (lookup_policy rules index)

module _ (env : PolicyEnv) where
  open env use {lib}

  unfoldable pub policy_match_lr :
      List (Rule lib.Cidr)
      → List (Option HostCx)
      → List (Option HostCx)
      → Outcome (List (Rule lib.Cidr) × ℤ)
  policy_match_lr rules left right = match_from (λ rule. match_lr env rule left right) 0 rules

  unfoldable pub policy_match_proxy :
      List (Rule lib.Cidr) → Option ProxySides → Outcome (List (Rule lib.Cidr) × ℤ)
  policy_match_proxy rules proxy = match_from (λ rule. match_proxy env rule proxy) 0 rules
