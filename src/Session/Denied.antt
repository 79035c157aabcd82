-- ===== src/Session/Denied.antt =====
-- What becomes of a session whose rule denies it, in MitmMasterProxy::on_left_new of
-- src/proxy/mitmproxy.cpp.
use mathlib.Core.Path.{subst}
use mathlib.Core.Option.{some-injective}
use smithproxy.Base.{
  ℕ, Bool, true, false, List, [], ◌∷◌, none, some, Text, same_text, same_text_iff, get_elem?, ◌≡◌,
  refl, ap, ◌≢◌, inl, inr, if-keeps, if◌then◌else◌, Bool-cases, arith,
}
use smithproxy.Base.Int.{ℤ, pos, ltb_ℤ, eqb_ℤ}
use smithproxy.Base.Outcome.{Outcome, value, throws, out_of_range}
use smithproxy.Policy.Rule.{Rule, action_deny, nat_none}
use smithproxy.Policy.Table.{lookup_policy, policy_match_proxy, policy_action, action_at}
use smithproxy.Session.{
  MitmCx, Proxy, Store, SessionEnv, policy_implicit_pass, sides, first_of, first_left, first_right,
  at_first, at_first_left, at_first_right,
}
use smithproxy.Session.Identity.{authorize, authorize_is_bad, identity_of}
use smithproxy.Session.Apply.{policy_apply, resolve_policy, apply_profiles}
use smithproxy.Session.Policy.{policy, marked, mark_policy, match_cx, route_policy, route_profile}
use smithproxy.Session.Accept.{
  Accepted, make, setup_snat, snat_both, no_nat, rule_at, low16, keep_source, connect, connect_both,
  admit, enforce, made, magic_target, from_source, on_left_new,
}
use smithproxy.Session.Opened.{Made}

-- A change through the first context's pointer leaves a first context there.
still_first :
    (f : MitmCx → MitmCx) (xs ys : List MitmCx) (cx : MitmCx)
    → first_of xs ys ≡ some cx
    → first_of (at_first f xs ys).0 (at_first f xs ys).1 ≡ some (f cx)
unfolding first_of at_first
still_first f [] [] cx h = absurd (cc)
still_first f [] (y ∷ ys) cx h = ap (λ c. some (f c)) (some-injective _ _ h)
still_first f (x ∷ xs) ys cx h = ap (λ c. some (f c)) (some-injective _ _ h)

-- A proxy with a context on both sides and no authentication asked for.
abbrev Fresh : Proxy → Type 0
Fresh p =
    (p.opt_auth_authenticate ≡ false)
    × ((l : MitmCx) × (first_left p ≡ some l))
    × ((r : MitmCx) × (first_right p ≡ some r))

either_first :
    (w : Bool) (cx : MitmCx)
    → first_of (if w then [] else cx ∷ []) (if w then cx ∷ [] else []) ≡ some cx
unfolding first_of
either_first true cx = refl
either_first false cx = refl

made-Fresh : (l3 : ℕ) (l r : MitmCx) (p : Proxy) → make l3 (some l) (some r) ≡ some p → Fresh p
unfolding make first_left first_right first_of
made-Fresh l3 l r p e =
    subst Fresh (some-injective _ _ e)
      (refl, (l, either_first l.waiting_for_peercom l), (record r { l3_proto = l.l3_proto }, refl))

not_below : (k : ℕ) → ltb_ℤ (pos k) (pos 0) ≡ false
not_below k = ground arith

marked-Fresh : (n : ℤ) (p : Proxy) → Fresh p → Fresh (mark_policy n p)
unfolding mark_policy at_first_left at_first_right first_left first_right
marked-Fresh n p (a, (l, hl), (r, hr)) = (
  a,
  (match_cx n l, still_first (match_cx n) p.ls p.lda l hl),
  (match_cx n r, still_first (match_cx n) p.rs p.rda r hr),
)

not_same : (x y : Text) → x ≢ y → same_text x y ≡ false
not_same x y h = elim (Bool-cases (same_text x y)) [
  | inl e ↦ absurd (h ((same_text_iff x y).0 e))
  | inr e ↦ e
]

authorized :
    (env : SessionEnv) (rules : List (Rule env.policy_env.lib.Cidr)) (p : Proxy)
    → Fresh p
    → authorize env rules p ≡ (p, true)
unfolding authorize
authorized env rules p (a, h, k) =
    ap
      (λ b.
        if b
        then (if identity_of env (first_left p)
            then (if authorize_is_bad env rules p
                then (record p { auth_block_identity = true }, false)
                else (p, true))
            else (p, false))
        else (p, true))
      a

module _ (env : SessionEnv) (rules : List (Rule env.policy_env.lib.Cidr)) (k : ℕ)
    (rule : Rule env.policy_env.lib.Cidr) (found : get_elem? rules k ≡ some rule) where
  -- The policy's own step, on a rule that does not pass and has no routing.
  policy-denied :
      (st : Store env.policy_env.lib.Cidr) (p : Proxy)
      → Fresh p
      → policy_match_proxy env.policy_env st.rules (some (sides p)) ≡ value (rules, pos k)
      → rule.action ≡ action_deny
      → rule.profile_routing ≡ none
      → policy env st p false ≡ value (record st { rules = rules }, mark_policy (pos k) p, true)
  unfolding policy policy_apply resolve_policy apply_profiles policy_action action_at marked
      lookup_policy route_policy route_profile
  policy-denied st p (a, (l, hl), (r, hr)) m d n =
      rw (hl, m, found, d, hl, hr, found, n, not_below k) refl

  -- What setting the source address makes of a proxy with a context on both sides.
  abbrev Sourced : Outcome (Proxy × Bool) → Type 0
  Sourced m = (q : Proxy) × (m ≡ value (q, true)) × Fresh q

  sourced-Fresh : (f : MitmCx → MitmCx) (p : Proxy) → Fresh p → Fresh (at_first_right f p)
  unfolding at_first_right first_left first_right
  sourced-Fresh f p (a, l, (r, hr)) = (a, l, (f r, still_first f p.rs p.rda r hr))

  rule_at-value : (n : ℤ) → lookup_policy rules n ≡ some rule → rule_at env rules n ≡ value rule
  rule_at-value n m = ap (λ o. elim o [ none ↦ throws out_of_range | some r ↦ value r ]) m

  no_nat-Sourced :
      (p : Proxy) (host port : Text) (n : ℤ)
      → Fresh p
      → lookup_policy rules p.matched_policy ≡ some rule
      → env.stoi port ≡ value n
      → Sourced (no_nat env rules p host port)
  unfolding no_nat
  no_nat-Sourced p host port n h m s = elim (Bool-cases (eqb_ℤ rule.nat nat_none)) [
    | inl e ↦ (
      at_first_right (keep_source env host (low16 env n)) p,
      rw (rule_at-value _ m, e, s) refl,
      sourced-Fresh _ p h,
    )
    | inr e ↦ (p, rw (rule_at-value _ m, e) refl, h)
  ]

  snat-denied :
      (p : Proxy) (host port : Text) (n : ℤ)
      → Fresh p
      → lookup_policy rules p.matched_policy ≡ some rule
      → env.stoi port ≡ value n
      → Sourced (setup_snat env rules p host port)
  unfolding setup_snat snat_both
  snat-denied p host port n (a, (l, hl), (r, hr)) m s =
      let (q, e, h) = no_nat-Sourced p host port n (a, (l, hl), (r, hr)) m s in
      rw (hl, hr)
        (if-keeps Sourced (eqb_ℤ p.matched_policy policy_implicit_pass) _ _
          (p, refl, (a, (l, hl), (r, hr))) (q, rw e refl, h))

  admit-denied :
      (st : Store env.policy_env.lib.Cidr) (proxies : List Proxy) (p : Proxy) (target : ℕ)
      (host port : Text) (n : ℤ)
      → Fresh p
      → lookup_policy rules p.matched_policy ≡ some rule
      → env.stoi port ≡ value n
      → st.rules ≡ rules
      → (q : Proxy) × (admit env st proxies target (host, port) (p, true)
          ≡ value (st, record q { connected = true } ∷ proxies))
  unfolding admit connect connect_both
  admit-denied st proxies p target host port n h m s k =
      let (q, e, (a, (l, hl), (r, hr))) = snat-denied p host port n h m s in
      (q, rw (k, e, hl, hr) refl)

module _ (env : SessionEnv) where
  -- What on_left_new does with a session that a rule denies, where the rule has no routing and the
  -- client's port is a number: as if the rule had no authentication and let it pass, it opens the
  -- session and connects it.
  pub on_left_new-denied :
      (st : Store env.policy_env.lib.Cidr) (proxies : List Proxy) (a : Accepted) (host port : Text)
      (n : ℤ) (p : Proxy) (rules : List (Rule env.policy_env.lib.Cidr)) (k : ℕ)
      (rule : Rule env.policy_env.lib.Cidr)
      → a.nonlocal_dst_resolved ≡ true
      → a.source ≡ some (host, port)
      → a.dst_host ≢ env.tenant_magic_ip
      → env.stoi port ≡ value n
      → Made env a p
      → policy_match_proxy env.policy_env st.rules (some (sides p)) ≡ value (rules, pos k)
      → get_elem? rules k ≡ some rule
      → rule.action ≡ action_deny
      → rule.profile_routing ≡ none
      → (q : Proxy) × (on_left_new env st proxies a
          ≡ value (record st { rules = rules }, record q { connected = true } ∷ proxies))
  unfolding on_left_new from_source magic_target made enforce
  on_left_new-denied st proxies a host port n p rules k rule res src far s is_made m found d r =
      let fresh = made-Fresh _ _ _ p is_made in
      let here = policy-denied env rules k rule found st p fresh m d r in
      let (q, e) =
        admit-denied env rules k rule found (record st { rules = rules }) proxies
          (mark_policy (pos k) p) a.dst_port host port n (marked-Fresh (pos k) p fresh)
          (unfold mark_policy in unfold lookup_policy in found) s refl in
      let away = not_same a.dst_host env.tenant_magic_ip far in
      (
        q,
        simp
            (
              res,
              src,
              away,
              is_made,
              here,
              authorized env rules (mark_policy (pos k) p) (marked-Fresh (pos k) p fresh),
            )
            e,
      )
