-- ===== src/Inspect/Once.antt =====
-- src/proxy/mitmhost.cpp: inspect looks at the same data only once.
use smithproxy.Base.{
  ℕ, ◌≡◌, refl, sym, ap, ◌∙◌, true, false, Bool, List, [], ◌∷◌, Option, none, some, ◌==◌, ltb,
  if◌then◌else◌, length, if-keeps, if-cases, if_yes, if_no, ==_iff, arith,
}
use smithproxy.Base.Outcome.{Outcome, value, Ends, Ends->>=, Ends-any, Ends-self, Ends-value, ◌>>=◌}
use smithproxy.Inspect.{
  Env, FlowCx, Inspector, InspectVerdict, verdict_ok, verdict_block, verdict_cached, dns_prefilter,
}
use smithproxy.Inspect.Update.{last_entry}
use smithproxy.Inspect.Verdict.{apply_verdict}
use smithproxy.Inspect.Host.{
  Host, left_side, update_one, updated, set_app_name, reply_sent, on_this, on_peer, go_on, to_peer,
  by_verdict, inspect_each, new_entry, inspect_new, inspect_grown, inspect_flow, inspect,
}

module _ (env : Env) (now side : ℕ) where
  open env use {buffers}

  -- The inspectors leave the flow as it is.
  SameFlow : Host env → List Inspector × Host env → Type 0
  SameFlow h r = r.1.flow ≡ h.flow

  go_on-SameFlow :
      (rec : Host env → Outcome (List Inspector × Host env)) (i : Inspector) (h g : Host env)
      → g.flow ≡ h.flow
      → ((k : Host env) → k.flow ≡ h.flow → Ends (SameFlow h) (rec k))
      → Ends (SameFlow h) (go_on env now side rec i g)
  unfolding go_on SameFlow
  go_on-SameFlow rec i h g e f = Ends->>= (SameFlow h) (SameFlow h) (rec g) _ (f g e) λ r s. s

  on_this-SameFlow :
      (i : Inspector) (rest : List Inspector) (h g : Host env)
      → g.flow ≡ h.flow
      → Ends (SameFlow h) (on_this env now side i rest g)
  unfolding on_this reply_sent SameFlow
  on_this-SameFlow i rest h g e =
      Ends->>= (λ r. Unit {0}) (SameFlow h) (apply_verdict buffers i g.cx) _
        (Ends-any (apply_verdict buffers i g.cx)) λ r _. e

  to_peer-SameFlow :
      (rec : Host env → Outcome (List Inspector × Host env)) (o : Option FlowCx) (i : Inspector)
      (rest : List Inspector) (h g : Host env)
      → g.flow ≡ h.flow
      → ((k : Host env) → k.flow ≡ h.flow → Ends (SameFlow h) (rec k))
      → Ends (SameFlow h) (to_peer env now side rec o i rest g)
  unfolding to_peer on_peer reply_sent SameFlow
  to_peer-SameFlow rec none i rest h g e f = go_on-SameFlow rec i h g e f
  to_peer-SameFlow rec (some t) i rest h g e f =
      Ends->>= (λ r. Unit {0}) (SameFlow h) (apply_verdict buffers i t) _
        (Ends-any (apply_verdict buffers i t)) λ r _. e

  by_verdict-SameFlow :
      (rec : Host env → Outcome (List Inspector × Host env)) (v : InspectVerdict) (i : Inspector)
      (rest : List Inspector) (h g : Host env)
      → g.flow ≡ h.flow
      → ((k : Host env) → k.flow ≡ h.flow → Ends (SameFlow h) (rec k))
      → Ends (SameFlow h) (by_verdict env now side rec v i rest g)
  unfolding by_verdict set_app_name
  by_verdict-SameFlow rec verdict_ok i rest h g e f =
      go_on-SameFlow rec i h (set_app_name env now side g) e f
  by_verdict-SameFlow rec verdict_block i rest h g e f = go_on-SameFlow rec i h g e f
  by_verdict-SameFlow rec verdict_cached i rest h g e f =
      if-keeps (Ends (SameFlow h)) (left_side side) _ _
        (to_peer-SameFlow rec g.peer i rest h (set_app_name env now side g) e f)
        (on_this-SameFlow i rest h (set_app_name env now side g) e)

  inspect_each-SameFlow :
      (is : List Inspector) (h g : Host env)
      → g.flow ≡ h.flow
      → Ends (SameFlow h) (inspect_each env now side is g)
  unfolding inspect_each updated SameFlow
  inspect_each-SameFlow [] h g e = e
  inspect_each-SameFlow (i ∷ is) h g e =
      if-keeps (Ends (SameFlow h)) (dns_prefilter g.cx) _ _
        (Ends->>= (λ w. Unit {0}) (SameFlow h) (update_one env now side i g) _
          (Ends-any (update_one env now side i g))
          λ w _.
            by_verdict-SameFlow (inspect_each env now side is) w.inspector.verdict w.inspector is h
              (updated env now side w g) e λ k f. inspect_each-SameFlow is h k f)
        (go_on-SameFlow (inspect_each env now side is) i h g e
          λ k f. inspect_each-SameFlow is h k f)

module _ (env : Env) (now later side other : ℕ) where
  -- There is nothing new to inspect.
  Settled : Host env → Type 0
  Settled g =
      (ltb g.inspect_cur_flow_size (length g.flow) ≡ false)
      × (inspect_grown env later other g ≡ value g)

  not_less : (n : ℕ) → ltb n n ≡ false
  not_less n = ground arith

  Settled-same :
      (g : Host env) (source : ℕ) (bytes : List ℕ)
      → last_entry g.flow ≡ value (source, bytes)
      → g.inspect_cur_flow_size ≡ length g.flow
      → g.inspect_flow_same_bytes ≡ length bytes
      → Settled g
  unfolding Settled inspect_grown
  Settled-same g source bytes last size same = (
    ap (λ (n : ℕ). ltb n (length g.flow)) size ∙ not_less (length g.flow),
    if_yes _ _ _ ((==_iff (length g.flow) g.inspect_cur_flow_size).1 (sym size))
        ∙ ap
            (λ (m : Outcome (ℕ × List ℕ)). m >>= λ e.
              if ltb g.inspect_flow_same_bytes (length e.1)
              then inspect_new env later other (length e.1) g
              else value g)
            last
        ∙ if_no _ _ _ (ap (λ (n : ℕ). ltb n (length bytes)) same ∙ not_less (length bytes)),
  )

  inspect_new-Settled :
      (h : Host env) (source : ℕ) (bytes : List ℕ)
      → last_entry h.flow ≡ value (source, bytes)
      → Ends Settled (inspect_new env now side (length bytes) h)
  unfolding inspect_new SameFlow
  inspect_new-Settled h source bytes last =
      Ends->>= (SameFlow env now side h) Settled (inspect_each env now side h.inspectors h) _
        (inspect_each-SameFlow env now side h.inspectors h h refl)
        λ r same. Settled-same _ source bytes (ap last_entry same ∙ last) refl refl

  -- Nothing was new: another entry, or the entry as it was.
  Settled-still :
      (h : Host env)
      → ltb h.inspect_cur_flow_size (length h.flow) ≡ false
      → (source : ℕ) (bytes : List ℕ) → last_entry h.flow ≡ value (source, bytes)
      → ltb h.inspect_flow_same_bytes (length bytes) ≡ false
      → Settled h
  unfolding Settled inspect_grown
  Settled-still h e source bytes last still = (
    e,
    if-cases (λ (m : Outcome (Host env)). m ≡ value h) (length h.flow == h.inspect_cur_flow_size) _
        _ (λ _. rw (last, still) refl) (λ _. refl),
  )

  -- The last entry is read, and what follows settles.
  at_last-Settled :
      (h : Host env) (f : ℕ × List ℕ → Outcome (Host env))
      → ((s : ℕ) (b : List ℕ) → last_entry h.flow ≡ value (s, b) → Ends Settled (f (s, b)))
      → Ends Settled (last_entry h.flow >>= f)
  at_last-Settled h f k =
      Ends->>= (λ e. last_entry h.flow ≡ value e) Settled (last_entry h.flow) f
        (Ends-self (last_entry h.flow)) λ e g. k e.0 e.1 g

  inspect-Settled : (h : Host env) → Ends Settled (inspect env now side h)
  unfolding inspect new_entry inspect_flow inspect_grown Settled
  inspect-Settled h = settled (ltb h.inspect_cur_flow_size (length h.flow)) refl
    where
      settled :
          (b : Bool)
          → ltb h.inspect_cur_flow_size (length h.flow) ≡ b
          → Ends Settled (
              inspect_flow env now side b
                (if b then record h { inspect_flow_same_bytes = 0 } else h))
      settled true e =
          at_last-Settled (record h { inspect_flow_same_bytes = 0 }) _
            λ s b g. inspect_new-Settled (record h { inspect_flow_same_bytes = 0 }) s b g
      settled false e =
          if-cases (Ends Settled) (length h.flow == h.inspect_cur_flow_size) _ _
            (λ _. at_last-Settled h _ λ s b g.
              if-cases (Ends Settled) (ltb h.inspect_flow_same_bytes (length b)) _ _
                (λ _. inspect_new-Settled h s b g) (λ still. Settled-still h e s b g still))
            (λ f. (e, if_no _ _ _ f))

  -- When inspect has returned, inspecting the same flow once more, at whatever time and side, changes
  -- nothing: no reply is sent or aged a second time.
  pub inspect-once :
      (h g : Host env) → inspect env now side h ≡ value g → inspect env later other g ≡ value g
  unfolding inspect inspect_flow new_entry Settled
  inspect-once h g e =
      let (no_entry, same) = Ends-value Settled (inspect env now side h) (inspect-Settled h) e in
      rw (no_entry) same
