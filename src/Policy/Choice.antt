-- ===== src/Policy/Choice.antt =====
-- CfgFactory::policy_match picks the first rule that admits the contexts.
use smithproxy.Base.{
  ℕ, suc, ◌+◌, ◌≡◌, refl, ap, ◌⊎◌, inl, inr, Bool, true, false, List, [], ◌∷◌, Option, some, arith,
  get_elem?, take, set, All,
}
use smithproxy.Base.Int.{ℤ, pos, minus_one}
use smithproxy.Base.Outcome.{Outcome, value}
use smithproxy.Policy.Rule.{Rule, HostCx}
use smithproxy.Policy.Match.{PolicyEnv, match_lr, count_match}
use smithproxy.Policy.Admission.{KnownProto, Readable, Admits}
use smithproxy.Policy.Deciding.{match_lr-Admits}
use smithproxy.Policy.Table.{match_from, policy_match_lr}

module _ {Cidr : Type 0} (P : Rule Cidr → Type 0) where
  -- The index `x + n` of the first rule with `P`, which is counted, or -1 and no change.
  abbrev pub Chosen : Outcome (List (Rule Cidr) × ℤ) → ℕ → List (Rule Cidr) → Type 0
  Chosen result x rules =
      ((n : ℕ) × (rule : Rule Cidr) × (get_elem? rules n ≡ some rule)
        × P rule
        × All (λ q. ¬ P q) (take n rules)
        × (result ≡ value (set rules n (count_match rule), pos (x + n))))
      ⊎ (All (λ q. ¬ P q) rules × (result ≡ value (rules, minus_one)))

  match_from-Chosen :
      (test : Rule Cidr → Outcome (Rule Cidr × Bool))
      → ((rule : Rule Cidr)
          → (P rule × (test rule ≡ value (count_match rule, true)))
            ⊎ ((¬ P rule) × (test rule ≡ value (rule, false))))
      → (rules : List (Rule Cidr)) (x : ℕ) → Chosen (match_from test x rules) x rules
  unfolding match_from
  match_from-Chosen test d [] x = inr (tt, refl)
  match_from-Chosen test d (rule ∷ rules) x = elim (d rule) [
    | inl (p, e) ↦ inl (
      0,
      rule,
      refl,
      p,
      tt,
      rw (e, match_from) (ap (λ (k : ℕ). value (count_match rule ∷ rules, pos k)) (omega arith)),
    )
    | inr (np, e) ↦ elim (match_from-Chosen test d rules (x + 1)) [
      | inl (n, q, g, pq, before, r) ↦ inl (
        suc n,
        q,
        g,
        pq,
        (np, before),
        rw (e, match_from, r)
            (ap (λ (k : ℕ). value (rule ∷ set rules n (count_match q), pos k)) (omega arith)),
      )
      | inr (never, r) ↦ inr ((np, never), rw (e, match_from, r) refl)
    ]
  ]

module _ (env : PolicyEnv) where
  open env use {lib}

  -- On contexts whose protocols and addresses are known, policy_match returns the index of the
  -- first rule that admits them, with that rule and no other counted; it returns -1 and changes
  -- nothing if and only if no rule admits them.
  pub policy_match_lr-first :
      (rules : List (Rule lib.Cidr)) (l r : List (Option HostCx))
      → All KnownProto l
      → All (Readable env) l
      → All (Readable env) r
      → Chosen (λ rule. Admits env rule l r) (policy_match_lr env rules l r) 0 rules
  unfolding policy_match_lr
  policy_match_lr-first rules l r hp hl hr =
      match_from-Chosen (λ rule. Admits env rule l r) (λ rule. match_lr env rule l r)
        (λ rule. match_lr-Admits env rule l r hp hl hr) rules 0
