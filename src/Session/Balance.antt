-- ===== src/Session/Balance.antt =====
-- The balancing of a routed session: src/policy/profiles.cpp and route of
-- src/proxy/proxymaker.cpp.
use native.Mathlib.Nat.{mod-lt}
use mathlib.Core.Option.{some-injective}
use smithproxy.Base.{
  ℕ, zero, suc, ◌<◌, Bool, true, false, List, [], ◌∷◌, Option, none, some, Text, map, length,
  get_elem?, get_elem?-lt, All, if-keeps, ◌==◌, ◌≡◌, refl, ap, ◌∙◌, ◌≢◌, ◌⊎◌, inl, inr,
  if◌then◌else◌, arith,
}
use smithproxy.Base.Int.{pos, ltb_ℤ}
use smithproxy.Base.Outcome.{Outcome, value, ◌>>=◌}
use smithproxy.Session.{MitmCx, Proxy, LbMethod, lb_rr, lb_l3, lb_l4, Routing, SessionEnv}
use smithproxy.Session.Route.{
  text_if_any, lb_index, lb_index_rr, lb_index_l3, lb_index_l4, crc32_proxy_key, lb_candidates,
  update, candidate_at, target_of, get_dnat_target, redirect, route_to, route, set_host, set_port,
  dnat_port,
}

module _ (env : SessionEnv) where
  in_range : (n i : ℕ) → i < suc n → (if suc n == 0 then 0 else i) < suc n
  in_range n i h = if-keeps (λ (k : ℕ). k < suc n) (suc n == 0) 0 i (omega arith) h

  -- A balancing index is below the number of candidates.
  lb_index-lt :
      (m : LbMethod) (r : Routing) (p : Proxy) (n : ℕ) → lb_index env m r p (suc n) < suc n
  unfolding lb_index lb_index_rr lb_index_l3 lb_index_l4
  lb_index-lt lb_rr r p n = in_range n _ (mod-lt r.rr_counter {m = suc n} (omega arith))
  lb_index-lt lb_l3 r p n =
      in_range n _ (mod-lt (crc32_proxy_key env p false) {m = suc n} (omega arith))
  lb_index-lt lb_l4 r p n =
      in_range n _ (mod-lt (crc32_proxy_key env p true) {m = suc n} (omega arith))

  set_port-host : (t : Option Text) (cx : MitmCx) → (set_port env t cx).host ≡ cx.host
  set_port-host none cx = refl
  set_port-host (some t) cx =
      if-keeps (λ (c : MitmCx). c.host ≡ cx.host) (ltb_ℤ (pos 0) (env.policy_env.safe_val t)) _ _
        refl refl

  hosts :
      (h : Text) (t : Option Text) (xs : List MitmCx)
      → All (λ cx. cx.host ≡ h) (map (λ cx. set_port env t (set_host env (some h) cx)) xs)
  hosts h t [] = tt
  hosts h t (x ∷ xs) = (set_port-host t (set_host env (some h) x), hosts h t xs)

  -- The right side of a routed proxy.
  abbrev pub Routed : List Text → Proxy → Outcome (Routing × Proxy × Bool) → Routing → Type 0
  Routed cs p result r =
      (cs ≡ []) × (result ≡ value (r, p, false))
      ⊎ ((n : ℕ) × (c : Text) × (q : Proxy) × (get_elem? cs n ≡ some c)
          × (result ≡ value (r, q, true))
          × All (λ cx. cx.host ≡ c) q.rs
          × (length q.rs ≡ length p.rs))

  length-map : (f : MitmCx → MitmCx) (xs : List MitmCx) → length (map f xs) ≡ length xs
  length-map f [] = refl
  length-map f (x ∷ xs) = ap suc (length-map f xs)

  All-get :
      (cs : List Text) (n : ℕ) (c : Text) → All (λ x. x ≢ []) cs → get_elem? cs n ≡ some c → c ≢ []
  All-get [] n c h e = absurd (cc)
  All-get (x ∷ cs) zero c (h, hs) e = λ z. h (some-injective _ _ e ∙ z)
  All-get (x ∷ cs) (suc n) c (h, hs) e = All-get cs n c hs e

  text_if_any-some : (c : Text) → c ≢ [] → text_if_any c ≡ some c
  unfolding text_if_any
  text_if_any-some [] h = absurd (h refl)
  text_if_any-some (x ∷ xs) h = refl

  candidate_at-value :
      (cs : List Text) (n : ℕ) (c : Text)
      → get_elem? cs n ≡ some c
      → candidate_at env cs n ≡ value c
  candidate_at-value cs n c e = rw (e, candidate_at) refl

  target-Routed :
      (cs : List Text) (p : Proxy) (r : Routing)
      → All (λ c. c ≢ []) cs
      → Routed cs p
          (target_of env cs r p >>= λ t. (let (p', ok) = route_to env t p in value (r, p', ok)))
          r
  unfolding target_of route_to redirect
  target-Routed [] p r h = inl (refl, refl)
  target-Routed (c ∷ cs) p r h =
      let n = lb_index env r.dnat_lb_method r p (suc (length cs)) in
      let (x, e) = get_elem?-lt (c ∷ cs) n (lb_index-lt r.dnat_lb_method r p (length cs)) in
      let port = text_if_any (dnat_port env r.dnat_ports) in
      inr (
        n,
        x,
        redirect env (some x) port p,
        e,
        rw (candidate_at-value (c ∷ cs) n x e, text_if_any-some x (All-get (c ∷ cs) n x h e)) refl,
        hosts x port p.rs,
        length-map _ p.rs,
      )

  -- If no candidate address is empty, route never reads past the candidates: without a candidate it
  -- leaves the proxy as it is and fails, and else it points every context of the right side to one
  -- and the same candidate, and counts the use of the profile.
  pub route-Routed :
      (p : Proxy) (r : Routing)
      → All (λ c. c ≢ []) (lb_candidates env (update env r) p.com_l3_proto)
      → Routed (lb_candidates env (update env r) p.com_l3_proto) p (route env p r) (update env r)
  unfolding route get_dnat_target
  route-Routed p r h = target-Routed _ p (update env r) h
