-- ===== src/Inspect/Answered.antt =====
-- src/inspect/dnsinspector.cpp: a request over UDP and the response to it.
use smithproxy.Base.{
  ℕ, ◌+◌, ◌<◌, ◌≡◌, refl, ap, ◌∙◌, true, false, Bool, ◌&&◌, ◌||◌, List, Option, some, none, length,
  if-keeps, if-cases, not_both, not, if_yes, if◌then◌else◌, ltb, ◌==◌, ==_iff, arith,
}
use smithproxy.Base.Outcome.{Ends, Ends->>=, Ends-any}
use smithproxy.Base.Bytes.{IsBuffers}
use smithproxy.Base.Views.{view-rest}
use smithproxy.Dns.{Packet, new_packet, type_a, type_aaaa}
use smithproxy.Dns.Load.{load}
use smithproxy.Dns.Loader.{done}
use smithproxy.Dns.Response.{question_type_0, question_str_0}
use smithproxy.Fqdn.{split_fqdn_subdomain}
use smithproxy.Inspect.{
  Env, World, FlowCx, Response, Inspector, loaded, find_request, note_request, sock_stream,
}
use smithproxy.Inspect.Requests.{
  request_loop, request_loaded, add_request, answer_from_cache, entry_answer, cached_answer,
  take_cached, no_cached, unless_cached, ttl_check,
}
use smithproxy.Inspect.Responses.{
  handle_response, accept_response, validate_response, response_loop, response_loaded,
  make_response, store, store_domain, is_known, no_text, answer_str_a,
}

module _ (env : Env) (now : ℕ) where
  open env use {buffers}

  -- A look into the cache changes no request.
  SameRequests : Inspector → Inspector → Type 0
  SameRequests i j = (j.requests ≡ i.requests) × (j.is_tcp ≡ i.is_tcp)

  entry_answer-SameRequests :
      (request : Packet) (o : Option Response) (i : Inspector)
      → Ends (SameRequests i) (entry_answer env now request o i)
  unfolding entry_answer SameRequests cached_answer take_cached no_cached
  entry_answer-SameRequests request none i = (refl, refl)
  entry_answer-SameRequests request (some r) i = cached r.cached_packet
    where
      cached :
          (o : Option (List ℕ)) → Ends (SameRequests i) (cached_answer env now request r.packet o i)
      cached none = (refl, refl)
      cached (some b) =
          Ends->>= (λ f. Unit {0}) (SameRequests i)
            (ttl_check env now b r.packet.loaded_at r.packet.answer_ttl_idx) _
            (Ends-any (ttl_check env now b r.packet.loaded_at r.packet.answer_ttl_idx))
            λ f _. if-keeps (SameRequests i) f _ _ (refl, refl) (refl, refl)

  -- The flow is not over TCP.
  abbrev pub Udp : World env → Type 0
  Udp w = ((w.cx.l4_proto == sock_stream) ≡ false) × (w.inspector.is_tcp ≡ false)

  -- The request is noted.
  abbrev pub Noted : Packet → World env → Type 0
  Noted p w = (find_request p.id w.inspector.requests ≡ some p) × Udp w

  answer_from_cache-Noted :
      (p : Packet) (w : World env) → Noted p w → Ends (Noted p) (answer_from_cache env now p w)
  unfolding answer_from_cache SameRequests unless_cached no_cached
  answer_from_cache-Noted p w (h, (u, t)) =
      if-keeps (Ends (Noted p))
        (w.inspector.opt_cached_responses
          && ((question_type_0 p == type_a) || (question_type_0 p == type_aaaa)))
        _ _
        (Ends->>= (SameRequests w.inspector) (Noted p)
          (entry_answer env now p (env.cache_get w.cache (question_str_0 p)) w.inspector) _
          (entry_answer-SameRequests p (env.cache_get w.cache (question_str_0 p)) w.inspector)
          λ i (e, f). (ap (find_request p.id) e ∙ h, (u, f ∙ t)))
        (
          unless w.inspector.cached_response w.inspector h,
          (u, kept w.inspector.cached_response w.inspector t),
        )
    where
      unless :
          (o : Option (List ℕ)) (i : Inspector)
          → find_request p.id i.requests ≡ some p
          → find_request p.id (unless_cached o i).requests ≡ some p
      unless none i e = e
      unless (some b) i e = e

      kept :
          (o : Option (List ℕ)) (i : Inspector)
          → i.is_tcp ≡ false
          → (unless_cached o i).is_tcp ≡ false
      kept none i e = e
      kept (some b) i e = e

  add_request-Noted : (p : Packet) (w : World env) → Udp w → Noted p (add_request env now p w)
  unfolding add_request note_request find_request
  add_request-Noted p w u = (if_yes _ _ _ ((==_iff p.id p.id).1 refl), u)

  -- A whole message is in the entry.
  abbrev pub Whole : List ℕ → Packet → Type 0
  Whole b p = (0 < length b) × (load buffers b now new_packet ≡ done (some (length b)) p)

  module _ (laws : IsBuffers env.buffers) where
    pub request_loop-Noted :
        (b : List ℕ) (p : Packet) (w : World env)
        → Whole b p
        → Udp w
        → Ends (Noted p) (request_loop env now b 10 0 w)
    unfolding request_loop request_loaded loaded
    request_loop-Noted b p w (pos, e) u =
        rw (starts, view-rest buffers laws b 0 (omega arith), e)
          (Ends->>= (Noted p) (Noted p) (answer_from_cache env now p (add_request env now p w)) _
            (answer_from_cache-Noted p (add_request env now p w) (add_request-Noted p w u))
            λ v h.
              if-cases (Ends (Noted p))
                (ltb (0 + (if length b == 0 then length b else length b)) (length b)) _ _
                (λ f. not_both f (ends (length b))) (λ _. h))
      where
        ends : (n : ℕ) → ltb (0 + (if n == 0 then n else n)) n ≡ false
        ends n = ground arith

        starts : ltb 0 (length b) ≡ true
        starts = ground arith

    store-SameState :
        (r : Response) (w : World env)
        → Ends (λ wk. (wk.0.cx ≡ w.cx) × (wk.0.inspector ≡ w.inspector)) (store env now r w)
    unfolding store store_domain
    store-SameState r w =
        if-keeps (Ends Same) (no_text (answer_str_a env now r.packet.answers_list)) _ _ (refl, refl)
          (Ends->>= (λ parts. Unit {0}) Same (split_fqdn_subdomain (question_str_0 r.packet)) _
            (Ends-any (split_fqdn_subdomain (question_str_0 r.packet)))
            λ parts _.
              if-keeps (λ (v : World env). (v.cx ≡ w.cx) × (v.inspector ≡ w.inspector))
                (not (no_text parts.0) && not (no_text parts.1)) _ _
                (if-keeps (λ (v : World env). (v.cx ≡ w.cx) × (v.inspector ≡ w.inspector))
                  (env.has_domain w.domains parts.0) _ _ (refl, refl) (refl, refl))
                (refl, refl))
      where
        Same : World env × Bool → Type 0
        Same wk = (wk.0.cx ≡ w.cx) × (wk.0.inspector ≡ w.inspector)

    -- One more response, and no error.
    abbrev pub Taken : World env → World env → Type 0
    Taken v u =
        (u.cx.in_error ≡ v.cx.in_error) × (u.inspector.responses ≡ v.inspector.responses + 1)

    handle_response-Taken :
        (r : Response) (p : Packet) (v : World env)
        → find_request r.packet.id v.inspector.requests ≡ some p
        → Ends (Taken v) (handle_response env now r v)
    unfolding handle_response validate_response accept_response
    handle_response-Taken r p v e = rw (known e) (
        Ends->>= (λ wk. (wk.0.cx ≡ v.cx) × (wk.0.inspector ≡ counted)) (Taken v)
          (store env now r (record v { inspector = counted })) _
          (store-SameState r (record v { inspector = counted }))
          λ wk (c, i). (ap (λ (x : FlowCx). x.in_error) c, ap (λ (x : Inspector). x.responses) i))
      where
        counted : Inspector
        counted = record v.inspector { responses = v.inspector.responses + 1 }

        known : {o : Option Packet} → o ≡ some p → is_known o ≡ true
        known f = ap is_known f

    pub response_loop-Taken :
        (b : List ℕ) (q p : Packet) (v : World env)
        → Whole b q
        → find_request q.id v.inspector.requests ≡ some p
        → Ends (Taken v) (response_loop env now b 10 0 v)
    unfolding response_loop response_loaded loaded make_response
    response_loop-Taken b q p v (pos, e) asked =
        rw (starts, view-rest buffers laws b 0 (omega arith), e)
          (Ends->>= (Taken v) (Taken v) (handle_response env now (make_response env now b q v) v) _
            (handle_response-Taken (make_response env now b q v) p v asked)
            λ u h.
              if-cases (Ends (Taken v)) (ltb (length b) (length b)) _ _
                (λ f. not_both f (ends (length b))) (λ _. h))
      where
        starts : ltb 0 (length b) ≡ true
        starts = ground arith

        ends : (n : ℕ) → ltb n n ≡ false
        ends n = ground arith
