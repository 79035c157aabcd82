-- ===== src/Inspect/Steady.antt =====
-- src/inspect/dnsinspector.cpp: an update ends, and keeps what the cache and the inspector hold.
use smithproxy.Base.{
  ℕ, zero, suc, ◌+◌, ◌≤◌, ◌<◌, ◌≡◌, ◌≢◌, inl, inr, true, false, Bool, not, ◌&&◌, List, [], Option,
  none, some, Text, length, drop, get_elem?, if-keeps, if◌then◌else◌, ltb, ◌==◌, Bool-cases, ltb→lt,
  arith,
}
use mathlib.Core.Path.{subst, sym}
use mathlib.Core.Option.{some-injective}
use smithproxy.Base.Outcome.{Yields, Yields->>=}
use smithproxy.Base.Bytes.{IsBuffers}
use smithproxy.Base.Views.{view-rest, ends_in_rest}
use smithproxy.Dns.{Packet, new_packet}
use smithproxy.Dns.Load.{load}
use smithproxy.Dns.Sections.{Loads}
use smithproxy.Dns.Complete.{load-done}
use smithproxy.Dns.Response.{question_str_0, question_str_0-not_nil}
use smithproxy.Fqdn.{split_fqdn_subdomain, dot}
use smithproxy.Fqdn.Labels.{split-value}
use smithproxy.Dns.Loader.{done}
use smithproxy.Inspect.{Env, IsCache, World, Response, loaded}
use smithproxy.Inspect.Requests.{answer_from_cache, add_request, request_loaded, request_loop}
use smithproxy.Inspect.Responses.{
  store, store_domain, accept_response, reject_response, handle_response, make_response,
  response_loaded, response_loop, validate_response, no_text, answer_str_a,
}
use smithproxy.Inspect.Sound.{
  Positions, SoundResponse, SoundCache, SoundWorld, answer_from_cache-SoundWorld,
}

-- What a load of `cur` gives.
abbrev Given : List ℕ → Option (ℕ × Packet) → Type 0
Given cur none = Unit {0}
Given cur (some (n, p)) = Positions cur p.answer_ttl_idx

module _ (env : Env) (laws : IsBuffers env.buffers) (cache_laws : IsCache env) (now : ℕ) where
  open env use {buffers, cache_get, cache_set}

  abbrev Keeps : World env → Type 0
  Keeps w = SoundWorld env laws now w

  loaded-Given :
      (cur : List ℕ)
      → ((j c : ℕ) → get_elem? cur j ≡ some c → 192 ≤ c → j + 1 < length cur)
      → Yields (Given cur) (loaded (load buffers cur now new_packet))
  unfolding loaded
  loaded-Given cur ends =
      let (r, q, e, h) = load-done buffers laws cur ends now in rw e (given r q h)
    where
      given :
          (r : Option ℕ) (q : Packet)
          → Loads buffers laws cur ends r q
          → Yields (Given cur) (loaded (done r q))
      given none q h = tt
      given (some n) q (long, _, (_, _, _, _, s)) = (long, (n, s))

  pub request_loop-Keeps :
      (bytes : List ℕ)
      → ((j c : ℕ) → get_elem? bytes j ≡ some c → 192 ≤ c → j + 1 < length bytes)
      → (it red : ℕ) (w : World env) → Keeps w
      → Yields Keeps (request_loop env now bytes it red w)
  unfolding request_loop request_loaded add_request
  request_loop-Keeps bytes ends zero red w h = h
  request_loop-Keeps bytes ends (suc it) red w h = elim (Bool-cases (ltb red (length bytes))) [
    | inr e ↦ rw e h
    | inl e ↦
        rw (e, view-rest buffers laws bytes red (le (ltb→lt red (length bytes) e)))
          (Yields->>= (Given (drop red bytes)) Keeps
            (loaded (load buffers (drop red bytes) now new_packet)) _
            (loaded-Given (drop red bytes) (ends_in_rest bytes red ends))
            (go (λ k v. request_loop-Keeps bytes ends it k v)))
  ]
    where
      le : {a b : ℕ} → a < b → a ≤ b
      le h = omega arith

      go :
          ((k : ℕ) (v : World env) → Keeps v → Yields Keeps (request_loop env now bytes it k v))
          → (o : Option (ℕ × Packet)) → Given (drop red bytes) o
          → Yields Keeps
              (request_loaded env now (drop red bytes) red (request_loop env now bytes it) w o)
      go rec none g = h
      go rec (some (n, p)) g =
          Yields->>= Keeps Keeps (answer_from_cache env now p (add_request env now p w)) _
            (answer_from_cache-SoundWorld env laws now p (add_request env now p w) h)
            (rec (red + (if n == 0 then length (drop red bytes) else n)))

  split_fqdn-Yields : (t : Text) → t ≢ [] → Yields (λ parts. Unit {0}) (split_fqdn_subdomain t)
  unfolding split_fqdn_subdomain
  split_fqdn-Yields t n = rw (split-value dot t n) tt

  store_domain-Keeps :
      (parts : Text × Text) (w : World env) → Keeps w → Keeps (store_domain env now parts w)
  unfolding store_domain
  store_domain-Keeps (top, sub) w h =
      if-keeps Keeps (not (no_text top) && not (no_text sub)) _ _
        (if-keeps Keeps (env.has_domain w.domains top) _ _ h h) h

  store-Keeps :
      (r : Response) (w : World env)
      → SoundResponse r
      → Keeps w
      → Yields (λ wk. Keeps wk.0) (store env now r w)
  unfolding store
  store-Keeps r w s (sc, sr) =
      if-keeps (Yields (λ wk. Keeps wk.0)) (no_text (answer_str_a env now r.packet.answers_list)) _
        _ (sc, sr)
        (Yields->>= (λ parts. Unit {0}) (λ wk. Keeps wk.0)
          (split_fqdn_subdomain (question_str_0 r.packet)) _
          (split_fqdn-Yields (question_str_0 r.packet) (question_str_0-not_nil r.packet))
          λ parts _.
            store_domain-Keeps parts
              (record w { cache = cache_set w.cache (question_str_0 r.packet) r }) (added, sr))
    where
      added : SoundCache env laws now (cache_set w.cache (question_str_0 r.packet) r)
      added k s' e = elim (cache_laws.holds_set w.cache (question_str_0 r.packet) k r s' e) [
        | inl same ↦ subst SoundResponse (sym same) s
        | inr old ↦ sc k s' old
      ]

  handle_response-Keeps :
      (r : Response) (w : World env)
      → SoundResponse r
      → Keeps w
      → Yields Keeps (handle_response env now r w)
  unfolding handle_response accept_response reject_response
  handle_response-Keeps r w s h =
      if-keeps (Yields Keeps) (validate_response env now r w) _ _
        (Yields->>= (λ wk. Keeps wk.0) Keeps (store env now r _) _ (store-Keeps r _ s h) λ wk k. k)
        h

  pub response_loop-Keeps :
      (bytes : List ℕ)
      → ((j c : ℕ) → get_elem? bytes j ≡ some c → 192 ≤ c → j + 1 < length bytes)
      → (it red : ℕ) (w : World env) → Keeps w
      → Yields Keeps (response_loop env now bytes it red w)
  unfolding response_loop response_loaded make_response
  response_loop-Keeps bytes ends zero red w h = h
  response_loop-Keeps bytes ends (suc it) red w h = elim (Bool-cases (ltb red (length bytes))) [
    | inr e ↦ rw e h
    | inl e ↦
        rw (e, view-rest buffers laws bytes red (le (ltb→lt red (length bytes) e)))
          (Yields->>= (Given (drop red bytes)) Keeps
            (loaded (load buffers (drop red bytes) now new_packet)) _
            (loaded-Given (drop red bytes) (ends_in_rest bytes red ends))
            (go (λ k v. response_loop-Keeps bytes ends it k v)))
  ]
    where
      le : {a b : ℕ} → a < b → a ≤ b
      le h = omega arith

      made :
          (p : Packet)
          → Positions (drop red bytes) p.answer_ttl_idx
          → (opt : Bool) (b : List ℕ) → (if opt then some (drop red bytes) else none) ≡ some b
          → Positions b p.answer_ttl_idx
      made p g true b e =
          subst (λ (x : List ℕ). Positions x p.answer_ttl_idx) (some-injective _ _ e) g
      made p g false b e = cc

      go :
          ((k : ℕ) (v : World env) → Keeps v → Yields Keeps (response_loop env now bytes it k v))
          → (o : Option (ℕ × Packet)) → Given (drop red bytes) o
          → Yields Keeps
              (response_loaded env now (drop red bytes) (response_loop env now bytes it) w o)
      go rec none g = h
      go rec (some (n, p)) g =
          Yields->>= Keeps Keeps
            (handle_response env now (make_response env now (drop red bytes) p w) w) _
            (handle_response-Keeps (make_response env now (drop red bytes) p w) w
              (made p g w.inspector.opt_cached_responses) h)
            (rec n)
