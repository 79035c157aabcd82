-- ===== src/Inspect/Exchange.antt =====
-- src/inspect/dnsinspector.cpp: an exchange of a request and its response through update.
use smithproxy.Base.{
  ℕ, ◌+◌, ◌<◌, ◌≤◌, get_elem?, ◌≡◌, refl, ap, ◌∙◌, true, false, List, some, length, if_no, if-keeps,
  if-cases, not_both, ◌==◌,
}
use smithproxy.Base.Outcome.{value, Ends, Ends-value, Ends-weaken}
use smithproxy.Base.Bytes.{IsBuffers}
use smithproxy.Dns.{Packet, new_packet}
use smithproxy.Dns.Load.{load}
use smithproxy.Dns.Loader.{done}
use smithproxy.Inspect.{Env, IsCache, World, FlowCx, Inspector, find_request, sock_stream}
use smithproxy.Inspect.Responses.{response_loop}
use smithproxy.Inspect.Update.{
  update, last_entry, begin, read_transport, read_entry, at_stage, from_client, from_server,
}
use smithproxy.Inspect.Sound.{SoundWorld}
use smithproxy.Inspect.Sustained.{update-SoundWorld}
use smithproxy.Inspect.Answered.{Udp, Noted, Whole, Taken, request_loop-Noted, response_loop-Taken}

-- The first update changes neither the requests nor the count of the responses.
begin-keeps :
    (cx : FlowCx) (i : Inspector)
    → ((begin cx i).requests ≡ i.requests) × ((begin cx i).responses ≡ i.responses)
unfolding begin
begin-keeps cx i =
    if-keeps Keeps i.in_progress _ _ (refl, refl)
      (if-keeps Keeps (cx.l4_proto == sock_stream) _ _ (refl, refl) (refl, refl))
  where
    Keeps : Inspector → Type 0
    Keeps j = (j.requests ≡ i.requests) × (j.responses ≡ i.responses)

begin-udp :
    (cx : FlowCx) (i : Inspector)
    → (cx.l4_proto == sock_stream) ≡ false
    → i.is_tcp ≡ false
    → (begin cx i).is_tcp ≡ false
unfolding begin
begin-udp cx i u t =
    if-keeps (λ (j : Inspector). j.is_tcp ≡ false) i.in_progress _ _ t
      (if-cases (λ (j : Inspector). j.is_tcp ≡ false) (cx.l4_proto == sock_stream) _ _
        (λ e. not_both e u) λ _. t)

module _ (env : Env) (laws : IsBuffers env.buffers) (cache_laws : IsCache env) where
  open env use {buffers}

  begun : World env → World env
  begun w = record w { inspector = begin w.cx w.inspector }

  -- Over UDP an update is the loop over the whole entry.
  udp :
      (now source : ℕ) (b : List ℕ) (w : World env)
      → w.inspector.is_tcp ≡ false
      → read_transport env now source b w ≡ read_entry env now source b 0 w
  unfolding read_transport
  udp now source b w e = if_no w.inspector.is_tcp _ _ e

  update-Noted :
      (now : ℕ) (flow : List (ℕ × List ℕ)) (b : List ℕ) (p : Packet) (w : World env)
      → last_entry flow ≡ value (from_client, b)
      → Udp env now w
      → Whole env now b p
      → Ends (Noted env now p) (update env now flow w)
  unfolding update read_entry begun at_stage
  update-Noted now flow b p w e (u, t) whole =
      let t' = begin-udp w.cx w.inspector u t in
      rw (e, udp now from_client b (begun w) t')
        (request_loop-Noted env now laws b p (at_stage env now 0 (begun w)) whole (u, t'))

  update-Taken :
      (now : ℕ) (flow : List (ℕ × List ℕ)) (b : List ℕ) (q p : Packet) (v : World env)
      → last_entry flow ≡ value (from_server, b)
      → Udp env now v
      → Whole env now b q
      → find_request q.id v.inspector.requests ≡ some p
      → Ends (Taken env now laws v) (update env now flow v)
  unfolding update read_entry begun at_stage
  update-Taken now flow b q p v e (u, t) whole asked =
      let (same_requests, same_responses) = begin-keeps v.cx v.inspector in
      rw (e, udp now from_server b (begun v) (begin-udp v.cx v.inspector u t))
        (Ends-weaken (Taken env now laws (at_stage env now 1 (begun v))) (Taken env now laws v)
          (response_loop env now b 10 0 (at_stage env now 1 (begun v)))
          (response_loop-Taken env now laws b q p (at_stage env now 1 (begun v)) whole
            (ap (find_request q.id) same_requests ∙ asked))
          λ x (same_error, counted). (same_error, counted ∙ ap (λ (k : ℕ). k + 1) same_responses))

  -- A UDP message with one request and a UDP message with one response that has its id, each of
  -- which ends in a byte below 192 (every byte of 192 or more has one behind it), in a flow whose
  -- cache and inspector are sound: both updates return, the response raises no error, and it
  -- is counted.
  pub exchange-answered :
      (now later : ℕ) (request_flow response_flow : List (ℕ × List ℕ)) (a b : List ℕ) (p q : Packet)
      (w : World env)
      → last_entry request_flow ≡ value (from_client, a)
      → last_entry response_flow ≡ value (from_server, b)
      → ((w.cx.l4_proto == sock_stream) ≡ false) × (w.inspector.is_tcp ≡ false)
      → (0 < length a) × (load buffers a now new_packet ≡ done (some (length a)) p)
      → (0 < length b) × (load buffers b later new_packet ≡ done (some (length b)) q)
      → q.id ≡ p.id
      → ((j c : ℕ) → get_elem? a j ≡ some c → 192 ≤ c → j + 1 < length a)
      → ((j c : ℕ) → get_elem? b j ≡ some c → 192 ≤ c → j + 1 < length b)
      → SoundWorld env laws now w
      → (v : World env) × (u : World env) × (update env now request_flow w ≡ value v)
        × (update env later response_flow v ≡ value u)
        × (u.cx.in_error ≡ v.cx.in_error)
        × (u.inspector.responses ≡ v.inspector.responses + 1)
  exchange-answered now later request_flow response_flow a b p q w ea eb udp_flow whole_a whole_b
        same_id ends_a ends_b sound =
      let (v, ev, sound_v) =
        update-SoundWorld env laws cache_laws now request_flow from_client a w ea ends_a
          (over_udp w udp_flow) sound in
      let (noted, udp_v) =
        Ends-value (Noted env now p) (update env now request_flow w)
          (update-Noted now request_flow a p w ea udp_flow whole_a) ev in
      let (u, eu, _) =
        update-SoundWorld env laws cache_laws later response_flow from_server b v eb ends_b
          (over_udp v udp_v) sound_v in
      let (same_error, counted) =
        Ends-value (Taken env later laws v) (update env later response_flow v)
          (update-Taken later response_flow b q p v eb udp_v whole_b
            (ap (λ (i : ℕ). find_request i v.inspector.requests) same_id ∙ noted))
          eu in
      (v, u, ev, eu, same_error, counted)
    where
      over_udp :
          (w : World env)
          → ((w.cx.l4_proto == sock_stream) ≡ false) × (w.inspector.is_tcp ≡ false)
          → {n : ℕ} → (begin w.cx w.inspector).is_tcp ≡ true
          → 2 ≤ n
      over_udp w (u, t) e = not_both e (begin-udp w.cx w.inspector u t)
