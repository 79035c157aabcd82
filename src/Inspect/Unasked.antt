-- ===== src/Inspect/Unasked.antt =====
-- src/inspect/dnsinspector.cpp: responses to no request.
use smithproxy.Base.{
  ℕ, zero, suc, ◌-◌, ◌≡◌, ◌⊎◌, refl, inl, inr, true, List, [], Option, some, none, length, if-keeps,
  ltb, ◌==◌,
}
use smithproxy.Base.Outcome.{value, Ends, Ends->>=, Ends-any, Ends-value}
use smithproxy.Base.Bytes.{swap16}
use smithproxy.Dns.{Packet, new_packet}
use smithproxy.Dns.Load.{load}
use smithproxy.Inspect.{Env, World, FlowCx, Response, Inspector, loaded, find_request, sock_stream}
use smithproxy.Inspect.Responses.{
  handle_response, reject_response, validate_response, response_loop, response_loaded,
  make_response,
}
use smithproxy.Inspect.Update.{
  update, last_entry, begin, read_transport, read_entry, at_stage, from_server,
}

-- The context as it was, or dropped with nothing to write.
abbrev pub Dropped : FlowCx → FlowCx → Type 0
Dropped cx d = (d ≡ cx) ⊎ ((d.in_error ≡ true) × (d.writebuf ≡ []))

module _ (env : Env) (now : ℕ) where
  open env use {buffers}

  -- The caches are those of `w`, no request is noted, and the context is as it was or dropped.
  abbrev Unchanged : World env → World env → Type 0
  Unchanged w v =
      (v.cache ≡ w.cache)
      × (v.domains ≡ w.domains)
      × (v.inspector.requests ≡ [])
      × (v.inspector.stored ≡ w.inspector.stored)
      × Dropped w.cx v.cx

  handle_response-Unchanged :
      (r : Response) (w v : World env)
      → Unchanged w v
      → Ends (Unchanged w) (handle_response env now r v)
  unfolding handle_response validate_response find_request reject_response
  handle_response-Unchanged r w v (c, d, q, s, x) = rw q (c, d, refl, s, inr (refl, refl))

  response_loop-Unchanged :
      (bytes : List ℕ) (it red : ℕ) (w v : World env)
      → Unchanged w v
      → Ends (Unchanged w) (response_loop env now bytes it red v)
  unfolding response_loop response_loaded
  response_loop-Unchanged bytes zero red w v h = h
  response_loop-Unchanged bytes (suc it) red w v h =
      let cur = buffers.view bytes red (length bytes - red) in
      if-keeps (Ends (Unchanged w)) (ltb red (length bytes)) _ _
        (Ends->>= (λ o. Unit {0}) (Unchanged w) (loaded (load buffers cur now new_packet)) _
          (Ends-any (loaded (load buffers cur now new_packet)))
          (go cur (λ n u. response_loop-Unchanged bytes it n w u)))
        h
    where
      go :
          (cur : List ℕ)
          → ((n : ℕ) (u : World env)
              → Unchanged w u
              → Ends (Unchanged w) (response_loop env now bytes it n u))
          → (o : Option (ℕ × Packet)) → Unit {0}
          → Ends (Unchanged w) (response_loaded env now cur (response_loop env now bytes it) v o)
      go cur rec none _ = h
      go cur rec (some (n, p)) _ =
          Ends->>= (Unchanged w) (Unchanged w)
            (handle_response env now (make_response env now cur p v) v) _
            (handle_response-Unchanged (make_response env now cur p v) w v h) (rec n)

  begin-requests : (cx : FlowCx) (i : Inspector) → i.requests ≡ [] → (begin cx i).requests ≡ []
  unfolding begin
  begin-requests cx i e =
      if-keeps (λ (j : Inspector). j.requests ≡ []) i.in_progress _ _ e
        (if-keeps (λ (j : Inspector). j.requests ≡ []) (cx.l4_proto == sock_stream) _ _ e e)

  begin-stored : (cx : FlowCx) (i : Inspector) → (begin cx i).stored ≡ i.stored
  unfolding begin
  begin-stored cx i =
      if-keeps (λ (j : Inspector). j.stored ≡ i.stored) i.in_progress _ _ refl
        (if-keeps (λ (j : Inspector). j.stored ≡ i.stored) (cx.l4_proto == sock_stream) _ _ refl
          refl)

  read_entry-Unchanged :
      (bytes : List ℕ) (red : ℕ) (w v : World env)
      → Unchanged w v
      → Ends (Unchanged w) (read_entry env now from_server bytes red v)
  unfolding read_entry at_stage
  read_entry-Unchanged bytes red w v h =
      response_loop-Unchanged bytes 10 red w (at_stage env now 1 v) h

  read_transport-Unchanged :
      (bytes : List ℕ) (w v : World env)
      → Unchanged w v
      → Ends (Unchanged w) (read_transport env now from_server bytes v)
  unfolding read_transport
  read_transport-Unchanged bytes w v h =
      if-keeps (Ends (Unchanged w)) v.inspector.is_tcp _ _
        (Ends->>= (λ n. Unit {0}) (Unchanged w) (buffers.get_at_u16 bytes 0) _
          (Ends-any (buffers.get_at_u16 bytes 0))
          λ n _.
            if-keeps (Ends (Unchanged w)) (ltb (length bytes) (swap16 n)) _ _ h
              (read_entry-Unchanged bytes 2 w v h))
        (read_entry-Unchanged bytes 0 w v h)

  -- Whatever a server sends while no request of the flow is noted, an update that returns leaves the
  -- caches of responses and of domains as they were, stores nothing, and leaves the context as it
  -- was or drops it with nothing to write.
  pub update-unasked :
      (flow : List (ℕ × List ℕ)) (bytes : List ℕ) (w v : World env)
      → last_entry flow ≡ value (from_server, bytes)
      → w.inspector.requests ≡ []
      → update env now flow w ≡ value v
      → (v.cache ≡ w.cache)
        × (v.domains ≡ w.domains)
        × (v.inspector.requests ≡ [])
        × (v.inspector.stored ≡ w.inspector.stored)
        × ((v.cx ≡ w.cx) ⊎ ((v.cx.in_error ≡ true) × (v.cx.writebuf ≡ [])))
  unfolding update
  update-unasked flow bytes w v e none_asked f =
      Ends-value (Unchanged w) (update env now flow w)
        (rw e (
          read_transport-Unchanged bytes w (record w { inspector = begin w.cx w.inspector })
            (
              refl,
              refl,
              begin-requests w.cx w.inspector none_asked,
              begin-stored w.cx w.inspector,
              inl refl,
            )))
        f
