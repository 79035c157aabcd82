-- ===== src/Inspect/Host.antt =====
-- src/proxy/mitmhost.cpp: MitmHostCX::inspect, for a context whose inspectors are DNS inspectors, the
-- only ones of a build without Python. None of them ever completes.
use smithproxy.Base.{
  ℕ, Bool, true, false, ◌||◌, List, [], ◌∷◌, ◌++◌, Option, none, some, ◌==◌, ltb, if◌then◌else◌,
  length,
}
use smithproxy.Base.Outcome.{Outcome, value, ◌>>=◌}
use smithproxy.Inspect.{
  Env, World, FlowCx, Inspector, InspectVerdict, verdict_ok, verdict_block, verdict_cached,
  dns_prefilter, new_inspector,
}
use smithproxy.Inspect.Update.{update, last_entry}
use smithproxy.Inspect.Verdict.{apply_verdict}

-- The context, its peer if that is an AppHostCX, and the caches.
pub record Host (env : Env) : Type 0 where
  pub cx : FlowCx
  pub peer : Option FlowCx
  pub flow : List (ℕ × List ℕ)
  pub inspectors : List Inspector
  pub inspect_cur_flow_size : ℕ
  pub inspect_flow_same_bytes : ℕ
  pub inspect_verdict : InspectVerdict
  pub inspect_verdict_response : Option (List ℕ)
  -- Whether the flow's application data are there.
  pub has_application_data : Bool
  pub cache : env.Cache
  pub domains : env.Domains

-- The options of a DNS profile. Nothing reads the first two of an inspector.
pub record ProfileAlgDns : Type 0 where
  pub match_request_id : Bool
  pub randomize_id : Bool
  pub cached_responses : Bool

abbrev pub left_side : ℕ → Bool
left_side side = (side == 108) || (side == 76)

module _ (env : Env) (now side : ℕ) where
  open env use {buffers}

  unfoldable pub update_one : Inspector → Host env → Outcome (World env)
  update_one inspector h =
      update env now h.flow
        (record { cx = h.cx; inspector = inspector; cache = h.cache; domains = h.domains })

  -- The host after the update of an inspector.
  unfoldable pub updated : World env → Host env → Host env
  updated w h = record h {
    cx = w.cx;
    cache = w.cache;
    domains = w.domains;
    inspect_verdict = w.inspector.verdict;
    inspect_verdict_response = w.inspector.cached_response;
  }

  unfoldable pub set_app_name : Host env → Host env
  set_app_name h = record h { has_application_data = true }

  -- The reply is in the buffer that the host's response is, too.
  unfoldable pub reply_sent : Inspector → Host env → Host env
  reply_sent inspector h = record h { inspect_verdict_response = inspector.cached_response }

  unfoldable pub on_this :
      Inspector → List Inspector → Host env → Outcome (List Inspector × Host env)
  on_this inspector rest h = do
    (inspector, cx) ← apply_verdict buffers inspector h.cx
    value (inspector ∷ rest, reply_sent inspector (record h { cx = cx }))

  unfoldable pub on_peer :
      FlowCx → Inspector → List Inspector → Host env → Outcome (List Inspector × Host env)
  on_peer target inspector rest h = do
    (inspector, cx) ← apply_verdict buffers inspector target
    value (inspector ∷ rest, reply_sent inspector (record h { peer = some cx }))

  -- The inspectors behind one, after it.
  unfoldable pub go_on :
      (Host env → Outcome (List Inspector × Host env))
      → Inspector
      → Host env
      → Outcome (List Inspector × Host env)
  go_on rec inspector h = do (rest, h) ← rec h; value (inspector ∷ rest, h)

  unfoldable pub to_peer :
      (Host env → Outcome (List Inspector × Host env))
      → Option FlowCx
      → Inspector
      → List Inspector
      → Host env
      → Outcome (List Inspector × Host env)
  to_peer rec none inspector rest h = go_on rec inspector h
  to_peer rec (some target) inspector rest h = on_peer target inspector rest h

  -- A reply from the cache ends the loop, unless there is nobody to send it to.
  unfoldable pub by_verdict :
      (Host env → Outcome (List Inspector × Host env))
      → InspectVerdict
      → Inspector
      → List Inspector
      → Host env
      → Outcome (List Inspector × Host env)
  by_verdict rec verdict_ok inspector rest h = go_on rec inspector (set_app_name h)
  by_verdict rec verdict_block inspector rest h = go_on rec inspector h
  by_verdict rec verdict_cached inspector rest h =
      if left_side side
      then to_peer rec h.peer inspector rest (set_app_name h)
      else on_this inspector rest (set_app_name h)

  unfoldable pub inspect_each : List Inspector → Host env → Outcome (List Inspector × Host env)
  inspect_each [] h = value ([], h)
  inspect_each (inspector ∷ rest) h =
      if dns_prefilter h.cx
      then (do
        w ← update_one inspector h
        by_verdict (inspect_each rest) w.inspector.verdict w.inspector rest (updated w h))
      else go_on (inspect_each rest) inspector h

  -- A flow with a new entry starts to be counted anew.
  unfoldable pub new_entry : Host env → Host env
  new_entry h =
      if ltb h.inspect_cur_flow_size (length h.flow)
      then record h { inspect_flow_same_bytes = 0 }
      else h

  unfoldable pub inspect_new : ℕ → Host env → Outcome (Host env)
  inspect_new last_size h = do
    (inspectors, h) ← inspect_each h.inspectors h
    value (record h {
      inspectors = inspectors;
      inspect_cur_flow_size = length h.flow;
      inspect_flow_same_bytes = last_size;
    })

  -- Whether the last entry of as many entries as before has grown.
  unfoldable pub inspect_grown : Host env → Outcome (Host env)
  inspect_grown h =
      if length h.flow == h.inspect_cur_flow_size
      then (do
        (source, bytes) ← last_entry h.flow
        if ltb h.inspect_flow_same_bytes (length bytes)
            then inspect_new (length bytes) h
            else value h)
      else value h

  unfoldable pub inspect_flow : Bool → Host env → Outcome (Host env)
  inspect_flow true h = do (source, bytes) ← last_entry h.flow; inspect_new (length bytes) h
  inspect_flow false h = inspect_grown h

  unfoldable pub inspect : Host env → Outcome (Host env)
  inspect h = inspect_flow (ltb h.inspect_cur_flow_size (length h.flow)) (new_entry h)

  -- MitmProxy::handle_cached_response, without its lines in the traffic log.
  unfoldable pub handle_cached_response : Host env → Bool
  handle_cached_response h = is_cached h.inspect_verdict
    where
      is_cached : InspectVerdict → Bool
      is_cached verdict_cached = true
      is_cached verdict_ok = false
      is_cached verdict_block = false

-- CfgFactory::prof_alg_dns_apply, on a MitmHostCX: whether an inspector is added.
unfoldable pub prof_alg_dns_apply : (env : Env) → Option ProfileAlgDns → Host env → Host env × Bool
prof_alg_dns_apply env none h = (h, false)
prof_alg_dns_apply env (some p) h =
    if dns_prefilter h.cx
    then (
      record h {
        inspectors =
            h.inspectors ++ record new_inspector { opt_cached_responses = p.cached_responses } ∷ [];
      },
      true,
    )
    else (h, false)
