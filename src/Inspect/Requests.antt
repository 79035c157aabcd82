-- ===== src/Inspect/Requests.antt =====
-- src/inspect/dnsinspector.cpp: the requests of a flow in DNS_Inspector::update, and their answers
-- from the cache. The time is the same during one update.
use smithproxy.Base.{
  ℕ, zero, suc, ◌+◌, ◌-◌, Bool, true, ◌&&◌, ◌||◌, List, [], ◌∷◌, Option, none, some, ◌==◌, ltb, leb,
  if◌then◌else◌, length,
}
use smithproxy.Base.Outcome.{Outcome, value, ◌>>=◌}
use smithproxy.Base.Bytes.{swap32}
use smithproxy.Dns.{Packet, new_packet, type_a, type_aaaa}
use smithproxy.Dns.Load.{load}
use smithproxy.Dns.Response.{question_str_0, question_type_0}
use smithproxy.Inspect.{
  Env, World, Inspector, Response, verdict_ok, verdict_cached, sub32, note_request, loaded,
}

-- No reply from the cache.
unfoldable pub no_cached : Inspector → Inspector
no_cached inspector = record inspector { verdict = verdict_ok; cached_response = none }

-- A request that is not looked up resets a reply of the cache.
unfoldable pub unless_cached : Option (List ℕ) → Inspector → Inspector
unless_cached none inspector = inspector
unless_cached (some bytes) inspector = no_cached inspector

module _ (env : Env) (now : ℕ) where
  open env use {buffers, cache_get}

  -- Whether no time to live of a cached packet is over. All of them are read.
  unfoldable pub ttl_check : List ℕ → ℕ → List ℕ → Outcome Bool
  ttl_check bytes loaded_at [] = value true
  ttl_check bytes loaded_at (i ∷ is) = do
    ttl ← buffers.get_at_u32 bytes i
    rest ← ttl_check bytes loaded_at is
    value (leb now (swap32 ttl + loaded_at) && rest)

  unfoldable pub take_cached : Packet → Packet → List ℕ → Inspector → Inspector
  take_cached request entry bytes inspector = record inspector {
    verdict = verdict_cached;
    cached_response = some bytes;
    cached_response_id = request.id;
    cached_response_ttl_idx = entry.answer_ttl_idx;
    cached_response_decrement = sub32 now entry.loaded_at;
  }

  -- An entry that holds no packet or has expired leaves the inspector as it is.
  unfoldable pub cached_answer : Packet → Packet → Option (List ℕ) → Inspector → Outcome Inspector
  cached_answer request entry none inspector = value inspector
  cached_answer request entry (some bytes) inspector = do
    fresh ← ttl_check bytes entry.loaded_at entry.answer_ttl_idx
    value (if fresh then take_cached request entry bytes inspector else inspector)

  unfoldable pub entry_answer : Packet → Option Response → Inspector → Outcome Inspector
  entry_answer request none inspector = value (no_cached inspector)
  entry_answer request (some r) inspector = cached_answer request r.packet r.cached_packet inspector

  unfoldable pub answer_from_cache : Packet → World env → Outcome (World env)
  answer_from_cache request w =
      if w.inspector.opt_cached_responses
        && ((question_type_0 request == type_a) || (question_type_0 request == type_aaaa))
      then (do
        inspector ← entry_answer request (cache_get w.cache (question_str_0 request)) w.inspector
        value (record w { inspector = inspector }))
      else value (record w { inspector = unless_cached w.inspector.cached_response w.inspector })

  unfoldable pub add_request : Packet → World env → World env
  add_request p w = record w {
    cx = record w.cx { idle_delay = 30 };
    inspector = record w.inspector { requests = note_request p.id p w.inspector.requests };
  }

  -- `rec` is the rest of the loop, from a position in the entry.
  unfoldable pub request_loaded :
      List ℕ
      → ℕ
      → (ℕ → World env → Outcome (World env))
      → World env
      → Option (ℕ × Packet)
      → Outcome (World env)
  request_loaded cur red rec w none = value w
  request_loaded cur red rec w (some (n, p)) = do
    w ← answer_from_cache p (add_request p w)
    rec (red + (if n == 0 then length cur else n)) w

  -- At most ten requests of the entry.
  unfoldable pub request_loop : List ℕ → ℕ → ℕ → World env → Outcome (World env)
  request_loop bytes zero red w = value w
  request_loop bytes (suc it) red w =
      if ltb red (length bytes)
      then (do
        let cur = buffers.view bytes red (length bytes - red)
        l ← loaded (load buffers cur now new_packet)
        request_loaded cur red (request_loop bytes it) w l)
      else value w
