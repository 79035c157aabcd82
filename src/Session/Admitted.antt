-- ===== src/Session/Admitted.antt =====
-- What MitmMasterProxy::on_left_new of src/proxy/mitmproxy.cpp lets through.
use smithproxy.Base.{
  ℕ, Bool, true, false, not, ◌&&◌, List, ◌∷◌, Option, none, some, Text, ◌≡◌, refl, sym, ◌⊎◌, inl,
  inr, if-keeps, if◌then◌else◌, Bool-cases,
}
use mathlib.Core.Path.{subst}
use smithproxy.Base.Int.{ℤ, eqb_ℤ, eqb_ℤ_pos}
use smithproxy.Base.Outcome.{
  Outcome, value, throws, undefined, out_of_range, logic_error, invalid_argument, Ends, Ends->>=,
  Ends-any, Ends-weaken,
}
use smithproxy.Policy.Rule.{Rule, nat_none}
use smithproxy.Policy.Table.{lookup_policy}
use smithproxy.Session.{
  MitmCx, Proxy, Store, SessionEnv, policy_implicit_pass, first_left, first_right, at_first_right,
}
use smithproxy.Session.Identity.{authorize, authorize_is_bad, identity_of, is_replaceable}
use smithproxy.Session.Accept.{
  no_nat, snat_caught, rule_at, snat_both, setup_snat, connect, connect_both, admit, enforce,
}
use smithproxy.Session.Marked.{Matched}

module _ (env : SessionEnv) where
  -- Setting the source address keeps the policy, and fails outside the table.
  abbrev Sourced : List (Rule env.policy_env.lib.Cidr) → Proxy → Proxy × Bool → Type 0
  Sourced rules p (p', ok) =
      (p'.matched_policy ≡ p.matched_policy)
      × (ok ≡ true
          → (p.matched_policy ≡ policy_implicit_pass)
            ⊎ ((rule : Rule env.policy_env.lib.Cidr) × (lookup_policy rules p.matched_policy
                  ≡ some rule)))

  snat_caught-Sourced :
      (rules : List (Rule env.policy_env.lib.Cidr)) (p : Proxy) (m : Outcome (Proxy × Bool))
      → Ends (Sourced rules p) m
      → Ends (Sourced rules p) (snat_caught env p m)
  snat_caught-Sourced rules p (value r) h = h
  snat_caught-Sourced rules p (throws out_of_range) h = (refl, λ e. absurd (cc))
  snat_caught-Sourced rules p (throws invalid_argument) h = (refl, λ e. absurd (cc))
  snat_caught-Sourced rules p (throws logic_error) h = tt
  snat_caught-Sourced rules p undefined h = tt

  rule_at-found :
      (rules : List (Rule env.policy_env.lib.Cidr)) (n : ℤ)
      → Ends (λ rule. lookup_policy rules n ≡ some rule) (rule_at env rules n)
  rule_at-found rules n = found (lookup_policy rules n)
    where
      found :
          (o : Option (Rule env.policy_env.lib.Cidr))
          → Ends (λ rule. o ≡ some rule) (elim o [ none ↦ throws out_of_range | some r ↦ value r ])
      found none = tt
      found (some r) = refl

  no_nat-Sourced :
      (rules : List (Rule env.policy_env.lib.Cidr)) (p : Proxy) (host port : Text)
      → Ends (Sourced rules p) (no_nat env rules p host port)
  unfolding no_nat at_first_right
  no_nat-Sourced rules p host port =
      Ends->>= (λ rule. lookup_policy rules p.matched_policy ≡ some rule) (Sourced rules p) _ _
        (rule_at-found rules p.matched_policy)
        λ rule e.
          if-keeps (Ends (Sourced rules p)) (eqb_ℤ rule.nat nat_none) _ _
            (Ends->>= (λ x. Unit {0}) (Sourced rules p) (env.stoi port) _ (Ends-any _)
              λ n _. (refl, λ h. inr (rule, e)))
            (refl, λ h. inr (rule, e))

  snat_both-Sourced :
      (rules : List (Rule env.policy_env.lib.Cidr)) (p : Proxy) (host port : Text)
      (l r : Option MitmCx)
      → Ends (Sourced rules p) (snat_both env rules p host port l r)
  unfolding snat_both
  snat_both-Sourced rules p host port none r = (refl, λ h. absurd (cc))
  snat_both-Sourced rules p host port (some l) none = (refl, λ h. absurd (cc))
  snat_both-Sourced rules p host port (some l) (some r) =
      elim (Bool-cases (eqb_ℤ p.matched_policy policy_implicit_pass)) [
        | inl e ↦ rw e (refl, λ h. inl (eqb_ℤ_pos p.matched_policy 65500 e))
        | inr e ↦ rw e (snat_caught-Sourced rules p _ (no_nat-Sourced rules p host port))
      ]

  -- One proxy more, which is connected, and whose policy is the portal's or a rule of the table.
  abbrev pub Taken : List (Rule env.policy_env.lib.Cidr) → List Proxy → ℤ → List Proxy → Type 0
  Taken rules proxies n proxies' =
      (proxies' ≡ proxies)
      ⊎ ((p : Proxy) × (proxies' ≡ p ∷ proxies)
          × (p.connected ≡ true)
          × (p.matched_policy ≡ n)
          × ((n ≡ policy_implicit_pass)
              ⊎ ((rule : Rule env.policy_env.lib.Cidr) × (lookup_policy rules n ≡ some rule))))

  connect_both-Taken :
      (rules : List (Rule env.policy_env.lib.Cidr)) (proxies : List Proxy) (p : Proxy)
      (l r : Option MitmCx)
      → ((p.matched_policy ≡ policy_implicit_pass)
          ⊎ ((rule : Rule env.policy_env.lib.Cidr) × (lookup_policy rules p.matched_policy
                ≡ some rule)))
      → Taken rules proxies p.matched_policy (connect_both env proxies p l r).0
  unfolding connect_both
  connect_both-Taken rules proxies p none r h = inl refl
  connect_both-Taken rules proxies p (some l) none h = inl refl
  connect_both-Taken rules proxies p (some l) (some r) h =
      inr (record p { connected = true }, refl, refl, refl, h)

  admit-Taken :
      (st : Store env.policy_env.lib.Cidr) (proxies : List Proxy) (port : ℕ) (source : Text × Text)
      (x : Proxy × Bool)
      → Ends
          (λ y. (y.0 ≡ st) × Taken st.rules proxies x.0.matched_policy y.1)
          (admit env st proxies port source x)
  unfolding admit connect setup_snat
  admit-Taken st proxies port (host, source_port) (p, authorized) =
      if-keeps
        (Ends (λ (y : Store env.policy_env.lib.Cidr × List Proxy).
          (y.0 ≡ st) × Taken st.rules proxies p.matched_policy y.1))
        (not authorized && not (is_replaceable port)) _ _ (refl, inl refl)
        (Ends->>= (Sourced st.rules p) _ _ _ (snat_both-Sourced st.rules p host source_port _ _)
          λ (p', ok) (k, h). (refl, joined p' ok k h))
    where
      joined :
          (p' : Proxy) (ok : Bool)
          → p'.matched_policy ≡ p.matched_policy
          → (ok ≡ true
              → (p.matched_policy ≡ policy_implicit_pass)
                ⊎ ((rule : Rule env.policy_env.lib.Cidr) × (lookup_policy st.rules p.matched_policy
                      ≡ some rule)))
          → Taken st.rules proxies p.matched_policy (
              if ok
              then (connect_both env proxies p' (first_left p') (first_right p')).0
              else proxies)
      joined p' false k h = inl refl
      joined p' true k h =
          subst
            (λ n.
              Taken st.rules proxies n
                (connect_both env proxies p' (first_left p') (first_right p')).0)
            k (connect_both-Taken st.rules proxies p' _ _ (rw k (h refl)))

  authorize-matched :
      (rules : List (Rule env.policy_env.lib.Cidr)) (p : Proxy)
      → (authorize env rules p).0.matched_policy ≡ p.matched_policy
  unfolding authorize
  authorize-matched rules p =
      if-keeps P p.opt_auth_authenticate _ _
        (if-keeps P (identity_of env (first_left p)) _ _
          (if-keeps P (authorize_is_bad env rules p) _ _ refl refl) refl)
        refl
    where
      P : Proxy × Bool → Type 0
      P x = x.0.matched_policy ≡ p.matched_policy

  -- The answer of a session's policy, and what became of the session.
  abbrev pub Followed :
      Store env.policy_env.lib.Cidr
      → List Proxy
      → Proxy
      → Bool
      → Store env.policy_env.lib.Cidr
      → List Proxy
      → Type 0
  Followed st proxies p magic st' proxies' =
      (proxies' ≡ proxies)
      ⊎ ((n : ℤ) × Matched env st p magic st' n × Taken st'.rules proxies n proxies')

  pub enforce-Followed :
      (st : Store env.policy_env.lib.Cidr) (proxies : List Proxy) (p : Proxy) (magic : Bool)
      (port : ℕ) (source : Text × Text) (x : Store env.policy_env.lib.Cidr × Proxy × Bool)
      → (x.2 ≡ true → Matched env st p magic x.0 x.1.matched_policy)
      → Ends (λ y. Followed st proxies p magic y.0 y.1) (enforce env proxies port source x)
  unfolding enforce
  enforce-Followed st proxies p magic port source (st', p', false) h = inl refl
  enforce-Followed st proxies p magic port source (st', p', true) h =
      Ends-weaken
        (λ y.
          (y.0 ≡ st') × Taken st'.rules proxies (authorize env st'.rules p').0.matched_policy y.1)
        _ _ (admit-Taken st' proxies port source (authorize env st'.rules p'))
        λ (st'', proxies') (e, t). inr (
          p'.matched_policy,
          subst (λ s. Matched env st p magic s p'.matched_policy) (sym e) (h refl),
          subst (λ s. Taken s.rules proxies p'.matched_policy proxies') (sym e)
              (subst (λ n. Taken st'.rules proxies n proxies') (authorize-matched st'.rules p') t),
        )
