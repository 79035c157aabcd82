-- ===== src/Session/Verdicts.antt =====
-- The answers of SocksProxy in src/proxy/socks5/socksproxy.cpp: the verdict on a request, and which
-- contexts are handed off.
use smithproxy.Base.{
  ℕ, true, ◌||◌, List, [], ◌∷◌, Option, some, get_elem?, get_elem?-lt, length, ◌<◌, ◌≡◌, refl, sym,
  ap, ◌∙◌, ◌≢◌, ◌↔◌, ◌⊎◌, inl, inr, if◌then◌else◌, Bool-cases, ltb, ltb→lt, arith,
}
use smithproxy.Base.Int.{ℤ, pos, negsuc, minus_one, ltb_ℤ, leb_ℤ}
use smithproxy.Base.Outcome.{Outcome, value, Ends-value}
use smithproxy.Policy.Rule.{Rule, HostCx, action_deny}
use smithproxy.Policy.Table.{policy_match_lr, policy_action}
use smithproxy.Session.{Proxy, Store, SessionEnv}
use smithproxy.Session.Handoff.{Handed, policy_verdict, truthy, handoff_from, socks5_handoff}
use smithproxy.Socks.{Verdict, accept, reject, cmd_connect}

truthy-verdict : (n : ℤ) → ((if truthy n then accept else reject) ≡ reject) ↔ (n ≡ pos 0)
truthy-verdict (pos n) = ground arith
truthy-verdict (negsuc n) = ground arith

-- The guard of the hand-off on a policy's index.
pub in_table :
    (n : ℤ) (size : ℕ)
    → ((ltb_ℤ n (pos 0) || leb_ℤ (pos size) n) ≡ true) ⊎ ((k : ℕ) × (n ≡ pos k) × (k < size))
in_table (pos k) size = elim (Bool-cases (ltb k size)) [
  | inl e ↦ inr (k, refl, ltb→lt k size e)
  | inr e ↦ inl (ground arith)
]
in_table (negsuc k) size = inl (ground arith)

module _ (env : SessionEnv) where
  -- A CONNECT request is rejected exactly if the rule it matched denies it, or has no index in the
  -- table any more; a request that no rule matches is accepted.
  pub policy_verdict-reject :
      (rules rules' : List (Rule env.policy_env.lib.Cidr)) (p : Proxy) (cx right : Option HostCx)
      (n : ℤ)
      → policy_match_lr env.policy_env rules (cx ∷ []) (right ∷ []) ≡ value (rules', n)
      → (v : Verdict) × (policy_verdict env rules p cmd_connect cx right
          ≡ value (rules', record p { matched_policy = n }, v))
        × ((v ≡ reject) ↔ (policy_action rules' n ≡ action_deny))
        × (n ≡ minus_one → v ≡ accept)
  unfolding policy_verdict
  policy_verdict-reject rules rules' p cx right n m = (
    if truthy (policy_action rules' n) then accept else reject,
    rw m refl,
    truthy-verdict (policy_action rules' n),
    λ e. rw e (unfold policy_action in refl),
  )

  dropped :
      (st : Store env.policy_env.lib.Cidr) (p : Proxy) (l4 : ℕ) (h : Handed)
      → (ltb_ℤ p.matched_policy (pos 0) || leb_ℤ (pos (length st.rules)) p.matched_policy) ≡ true
      → socks5_handoff env st p l4 h ≡ value (st, record p { dead = true })
  unfolding socks5_handoff
  dropped st p l4 h e =
      ap
        (λ b.
          if b then value (st, record p { dead = true }) else handoff_from env st p l4 h h.source)
        e

  -- When socks5_handoff connects a context, the proxy's matched policy is the index of a rule.
  socks5_handoff-rule :
      (st st' : Store env.policy_env.lib.Cidr) (p p' : Proxy) (l4 : ℕ) (h : Handed)
      → socks5_handoff env st p l4 h ≡ value (st', p')
      → p'.connected ≢ p.connected
      → (k : ℕ) × (rule : Rule env.policy_env.lib.Cidr) × (p.matched_policy ≡ pos k)
        × (get_elem? st.rules k ≡ some rule)
  socks5_handoff-rule st st' p p' l4 h e c = elim (in_table p.matched_policy (length st.rules)) [
    | inl out ↦ absurd (c (kept (sym (dropped st p l4 h out) ∙ e)))
    | inr (k, m, lt) ↦ let (rule, g) = get_elem?-lt st.rules k lt in (k, rule, m, g)
  ]
    where
      kept :
          ◌≡◌ {A = Outcome (Store env.policy_env.lib.Cidr × Proxy)}
            (value (st, record p { dead = true }))
            (value (st', p'))
          → p'.connected ≡ p.connected
      kept q =
          Ends-value (λ x. x.1.connected ≡ p.connected) (value (st, record p { dead = true })) refl
            q
