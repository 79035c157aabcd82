-- ===== src/Session/Opened.antt =====
-- Which sessions MitmMasterProxy::on_left_new of src/proxy/mitmproxy.cpp opens.
use mathlib.Core.Path.{subst}
use smithproxy.Base.{
  ℕ, suc, ◌+◌, Bool, true, false, List, [], ◌∷◌, Option, none, some, Text, same_text, same_text_iff,
  get_elem?, ◌≡◌, refl, sym, ap, ◌∙◌, ◌≢◌, ◌⊎◌, inl, inr, if-keeps, Bool-cases, not_both, arith,
}
use smithproxy.Base.Int.{ℤ, pos, minus_one}
use smithproxy.Base.Outcome.{Outcome, value, Ends, Ends->>=, Ends-any, Ends-weaken, Ends-value}
use smithproxy.Policy.Rule.{Rule}
use smithproxy.Policy.Match.{match_proxy}
use smithproxy.Policy.Table.{match_from, lookup_policy, policy_match_proxy}
use smithproxy.Session.{Proxy, Store, SessionEnv, policy_implicit_pass, sides}
use smithproxy.Session.Policy.{policy}
use smithproxy.Session.Accept.{
  Accepted, new_target, make, made, magic_target, to_magic, from_source, on_left_new,
}
use smithproxy.Session.Marked.{policy-Matched}
use smithproxy.Session.Admitted.{Followed, enforce-Followed}

-- An answer of the match is -1 or the index of a rule.
abbrev Indexed : {Cidr : Type 0} → ℕ → List (Rule Cidr) × ℤ → Type 0
Indexed x (rules, n) =
    (n ≡ minus_one)
    ⊎ ((k : ℕ) × (rule : Rule _) × (n ≡ pos (x + k)) × (get_elem? rules k ≡ some rule))

match_from-Indexed :
    {Cidr : Type 0} (test : Rule Cidr → Outcome (Rule Cidr × Bool)) (rules : List (Rule Cidr))
    (x : ℕ)
    → Ends (Indexed x) (match_from test x rules)
unfolding match_from
match_from-Indexed test [] x = inl refl
match_from-Indexed {Cidr} test (rule ∷ rules) x =
    Ends->>= (λ r. Unit {0}) (Indexed x) (test rule) _ (Ends-any _)
      λ (rule', r) _.
        if-keeps (Ends (Indexed x)) r _ _ (inr (0, rule', ap pos (omega arith), refl)) (
          Ends->>= (Indexed (x + 1)) (Indexed x) (match_from test (x + 1) rules) _
            (match_from-Indexed test rules (x + 1)) λ (rules', n) h. later rule' rules' n h)
  where
    later :
        (rule' : Rule Cidr) (rules' : List (Rule Cidr)) (n : ℤ)
        → Indexed (x + 1) (rules', n)
        → Indexed x (rule' ∷ rules', n)
    later rule' rules' n (inl e) = inl e
    later rule' rules' n (inr (k, q, e, g)) = inr (suc k, q, e ∙ ap pos (omega arith), g)

module _ (env : SessionEnv) where
  -- The proxy that `make` sets up for an accepted connection, whose policy is looked up.
  abbrev pub Made : Accepted → Proxy → Type 0
  Made a p =
      make a.cx.l3_proto (some a.cx)
        (some (new_target a a.dst_host (env.format_d (pos a.dst_port))))
      ≡ some p

  -- The policy of an open session: the portal's, or the rule that matched the new proxy.
  abbrev pub Opened :
      Store env.policy_env.lib.Cidr → Accepted → Store env.policy_env.lib.Cidr → Proxy → Type 0
  Opened st a st' p =
      ((a.dst_host ≡ env.tenant_magic_ip) × (p.matched_policy ≡ policy_implicit_pass))
      ⊎ ((a.dst_host ≢ env.tenant_magic_ip)
          × (q : Proxy) × (k : ℕ) × (rule : Rule env.policy_env.lib.Cidr) × Made a q
          × (policy_match_proxy env.policy_env st.rules (some (sides q)) ≡ value (st'.rules, pos k))
          × (get_elem? st'.rules k ≡ some rule)
          × (p.matched_policy ≡ pos k))

  abbrev pub Openings :
      Store env.policy_env.lib.Cidr
      → List Proxy
      → Accepted
      → Store env.policy_env.lib.Cidr × List Proxy
      → Type 0
  Openings st proxies a (st', proxies') =
      (proxies' ≡ proxies)
      ⊎ ((p : Proxy) × (proxies' ≡ p ∷ proxies) × (p.connected ≡ true) × Opened st a st' p)

  match-Indexed :
      (rules rules' : List (Rule env.policy_env.lib.Cidr)) (p : Proxy) (n : ℤ)
      → policy_match_proxy env.policy_env rules (some (sides p)) ≡ value (rules', n)
      → Indexed 0 (rules', n)
  unfolding policy_match_proxy
  match-Indexed rules rules' p n e =
      Ends-value (Indexed 0) _
        (match_from-Indexed (λ r. match_proxy env.policy_env r (some (sides p))) rules 0) e

  portal-Openings :
      (st st' : Store env.policy_env.lib.Cidr) (proxies proxies' : List Proxy) (a : Accepted)
      (q : Proxy)
      → a.dst_host ≡ env.tenant_magic_ip
      → Followed env st proxies q true st' proxies'
      → Openings st proxies a (st', proxies')
  portal-Openings st st' proxies proxies' a q m (inl e) = inl e
  portal-Openings st st' proxies proxies' a q m (inr (n, e, inl k)) = inl k
  portal-Openings st st' proxies proxies' a q m (inr (n, e, inr (p, c, d, g, h))) =
      inr (p, c, d, inl (m, g ∙ e))

  below :
      {A : Type 0} (rules : List (Rule env.policy_env.lib.Cidr))
      (rule : Rule env.policy_env.lib.Cidr)
      → lookup_policy rules minus_one ≡ some rule
      → A
  unfolding lookup_policy
  below rules rule z = absurd (cc)

  rule-Openings :
      (st st' : Store env.policy_env.lib.Cidr) (proxies proxies' : List Proxy) (a : Accepted)
      (q : Proxy)
      → a.dst_host ≢ env.tenant_magic_ip
      → Made a q
      → Followed env st proxies q false st' proxies'
      → Openings st proxies a (st', proxies')
  unfolding lookup_policy
  rule-Openings st st' proxies proxies' a q m is_made (inl e) = inl e
  rule-Openings st st' proxies proxies' a q m is_made (inr (n, e, inl k)) = inl k
  rule-Openings st st' proxies proxies' a q m is_made (inr (n, e, inr (p, c, d, g, h))) =
      elim (match-Indexed st.rules st'.rules q n e) [
        | inl i ↦ elim h [
          | inl z ↦ absurd (cc)
          | inr (rule, z) ↦
              below st'.rules rule (subst (λ m. lookup_policy st'.rules m ≡ some rule) i z)
        ]
        | inr (k, rule, i, f) ↦
            let j = i ∙ ap pos (omega arith) in
            inr (p, c, d, inr (m, q, k, rule, is_made, rw (sym j) e, f, g ∙ j))
      ]

  source-Openings :
      (st : Store env.policy_env.lib.Cidr) (proxies : List Proxy) (a : Accepted)
      (source : Option (Text × Text))
      → Ends (Openings st proxies a) (from_source env st proxies a source)
  unfolding from_source magic_target made
  source-Openings st proxies a none = inl refl
  source-Openings st proxies a (some source) =
      elim (Bool-cases (same_text a.dst_host env.tenant_magic_ip)) [
        | inl e ↦ rw e (
            Ends->>= (λ x. Unit {0}) (Openings st proxies a) (to_magic env a.dst_port) _
              (Ends-any (to_magic env a.dst_port))
              λ (host, port) _.
                made-portal port
                  (make a.cx.l3_proto (some a.cx)
                    (some (new_target a host (env.format_d (pos port)))))
                  ((same_text_iff a.dst_host env.tenant_magic_ip).0 e))
        | inr e ↦ rw e (
            made-rule
              (make a.cx.l3_proto (some a.cx)
                (some (new_target a a.dst_host (env.format_d (pos a.dst_port)))))
              refl λ m. not_both ((same_text_iff a.dst_host env.tenant_magic_ip).1 m) e)
      ]
    where
      made-portal :
          (port : ℕ) (q : Option Proxy)
          → a.dst_host ≡ env.tenant_magic_ip
          → Ends (Openings st proxies a) (made env st proxies port true source q)
      made-portal port none m = tt
      made-portal port (some q) m =
          Ends->>= _ (Openings st proxies a) (policy env st q true) _ (policy-Matched env st q true)
            λ x h.
              Ends-weaken _ _ _ (enforce-Followed env st proxies q true port source x h)
                λ (st', proxies') f. portal-Openings st st' proxies proxies' a q m f

      made-rule :
          (q : Option Proxy)
          → make a.cx.l3_proto
              (some a.cx)
              (some (new_target a a.dst_host (env.format_d (pos a.dst_port))))
            ≡ q
          → a.dst_host ≢ env.tenant_magic_ip
          → Ends (Openings st proxies a) (made env st proxies a.dst_port false source q)
      made-rule none e m = tt
      made-rule (some q) e m =
          Ends->>= _ (Openings st proxies a) (policy env st q false) _
            (policy-Matched env st q false)
            λ x h.
              Ends-weaken _ _ _ (enforce-Followed env st proxies q false a.dst_port source x h)
                λ (st', proxies') f. rule-Openings st st' proxies proxies' a q m e f

  -- When on_left_new returns, it has opened nothing, or one connected session: to the portal, if
  -- the destination is the magic address, or else under the rule whose index policy_match returned
  -- for the new proxy. In particular a session that no rule matches is not opened.
  pub on_left_new-Opened :
      (st st' : Store env.policy_env.lib.Cidr) (proxies proxies' : List Proxy) (a : Accepted)
      → on_left_new env st proxies a ≡ value (st', proxies')
      → (proxies' ≡ proxies)
        ⊎ ((p : Proxy) × (proxies' ≡ p ∷ proxies) × (p.connected ≡ true) × Opened st a st' p)
  unfolding on_left_new
  on_left_new-Opened st st' proxies proxies' a e =
      Ends-value (Openings st proxies a) (on_left_new env st proxies a) opens e
    where
      opens : Ends (Openings st proxies a) (on_left_new env st proxies a)
      opens =
          if-keeps (Ends (Openings st proxies a)) a.nonlocal_dst_resolved _ _
            (source-Openings st proxies a a.source) (inl refl)
