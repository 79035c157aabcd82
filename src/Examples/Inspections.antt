-- ===== src/Examples/Inspections.antt =====
-- A DNS request, the response to it, and a reply from the cache.
use smithproxy.Base.{
  ℕ, ◌+◌, ◌≤◌, ◌≡◌, ◌⊎◌, refl, inl, inr, true, false, List, [], ◌∷◌, Option, some, none, Text,
  same_text, length, get_elem?, if◌then◌else◌, if-cases, arith,
}
use mathlib.Core.Option.{some-injective}
use mathlib.Core.Path.{sym}
use smithproxy.Base.Outcome.{value}
use smithproxy.Base.Bytes.{plain_buffers, plain_buffers-IsBuffers, word_at, swap16}
use smithproxy.Inspect.{
  Env, IsCache, World, FlowCx, Inspector, Response, new_inspector, find_request, loaded,
}
use smithproxy.Inspect.Responses.{
  response_loop, response_loaded, handle_response, validate_response, reject_response,
  make_response,
}
use smithproxy.Inspect.Update.{
  update, last_entry, begin, from_client, from_server, read_transport, read_entry, at_stage,
}
use smithproxy.Inspect.Verdict.{apply_verdict, framed}
use smithproxy.Inspect.Sound.{SoundWorld, Positions}
use smithproxy.Inspect.Sustained.{update-SoundWorld}
use smithproxy.Inspect.Aged.{Outside, Lessened, apply_verdict-Aged}
use smithproxy.Inspect.Unasked.{update-unasked}
use smithproxy.Inspect.Exchange.{exchange-answered}
use smithproxy.Examples.Packets.{
  response, response_ends, response_loads, resolved, request, request_ends, request_loads, asked,
}

abbrev look_up : List (Text × Response) → Text → Option Response
look_up [] k = none
look_up ((l, r) ∷ c) k = if same_text l k then some r else look_up c k

abbrev pub listed : Env
listed = record {
  buffers = plain_buffers;
  ip = λ a. 49 ∷ [];
  Cache = List (Text × Response);
  cache_get = look_up;
  cache_set = λ c k r. (k, r) ∷ c;
  Domains = List Text;
  has_domain = λ d t. false;
  set_subdomain = λ d t s n. d;
  add_domain = λ d t s n. t ∷ d;
}

listed-IsCache : IsCache listed
listed-IsCache = record {
  holds_set = λ c k l r s.
      if-cases (λ (o : Option Response). o ≡ some s → (s ≡ r) ⊎ (look_up c l ≡ some s))
        (same_text k l) (some r) (look_up c l) (λ _ e. inl (sym (some-injective r s e)))
        (λ _ e. inr e);
}

abbrev pub udp_cx : FlowCx
udp_cx = record {
  l4_proto = 2;
  nonlocal_dst_port = 53;
  idle_delay = 0;
  in_error = false;
  writebuf = 1 ∷ [];
  sent = [];
}

abbrev pub caching : Inspector
caching = record new_inspector { opt_cached_responses = true }

abbrev start : World listed
start = record { cx = udp_cx; inspector = caching; cache = []; domains = [] }

last_one : (source : ℕ) (b : List ℕ) → last_entry ((source, b) ∷ []) ≡ value (source, b)
unfolding last_entry
last_one source b = refl

start-SoundWorld : SoundWorld listed plain_buffers-IsBuffers 7 start
start-SoundWorld = (λ k r e. cc, λ b e. cc)

update-SoundWorld_example :
    (v : World listed) × (update listed 7 ((from_server, response) ∷ []) start ≡ value v)
    × SoundWorld listed plain_buffers-IsBuffers 7 v
update-SoundWorld_example =
    update-SoundWorld listed plain_buffers-IsBuffers listed-IsCache 7 ((from_server, response) ∷ [])
      from_server response start (last_one from_server response) response_ends (λ _. omega arith)
      start-SoundWorld

exchange-answered_example :
    (v : World listed) × (u : World listed) × (update listed 7 ((from_client, request) ∷ []) start
      ≡ value v)
    × (update listed 7 ((from_server, response) ∷ []) v ≡ value u)
    × (u.cx.in_error ≡ v.cx.in_error)
    × (u.inspector.responses ≡ v.inspector.responses + 1)
exchange-answered_example =
    exchange-answered listed plain_buffers-IsBuffers listed-IsCache 7 7
      ((from_client, request) ∷ []) ((from_server, response) ∷ []) request response asked resolved
      start (last_one from_client request) (last_one from_server response) (refl, refl)
      (omega arith, request_loads) (omega arith, response_loads) refl request_ends response_ends
      start-SoundWorld

response-Positions : Positions response (26 ∷ [])
response-Positions = (omega arith, (36, (omega arith, omega arith, omega arith)))

abbrev replying : Inspector
replying = record caching {
  cached_response = some response;
  cached_response_id = 5;
  cached_response_ttl_idx = 26 ∷ [];
  cached_response_decrement = 93;
}

apply_verdict-Aged_example :
    (c : List ℕ) × (apply_verdict plain_buffers replying udp_cx
      ≡ value (
        record replying { cached_response = some c },
        record udp_cx { sent = framed plain_buffers false c ∷ [] },
      ))
    × (length c ≡ length response)
    × (word_at c 0 ≡ value (swap16 5))
    × ((j : ℕ) → 2 ≤ j → Outside j (26 ∷ []) → get_elem? c j ≡ get_elem? response j)
    × Lessened 93 response c (26 ∷ [])
apply_verdict-Aged_example =
    apply_verdict-Aged plain_buffers plain_buffers-IsBuffers replying udp_cx response refl
      (omega arith) response-Positions

-- The response that nobody asked for.
abbrev dropped : World listed
dropped = record start {
  cx = record udp_cx { in_error = true; writebuf = [] };
  inspector = record caching { in_progress = true; stage = 1 };
}

unasked : update listed 7 ((from_server, response) ∷ []) start ≡ value dropped
unfolding update last_entry read_transport begin read_entry at_stage response_loop response_loaded
    loaded handle_response validate_response find_request reject_response make_response
unasked = rw response_loads refl

update-unasked_example :
    (dropped.cache ≡ [])
    × (dropped.domains ≡ [])
    × (dropped.inspector.requests ≡ [])
    × (dropped.inspector.stored ≡ false)
    × ((dropped.cx ≡ udp_cx) ⊎ ((dropped.cx.in_error ≡ true) × (dropped.cx.writebuf ≡ [])))
update-unasked_example =
    update-unasked listed 7 ((from_server, response) ∷ []) response start dropped
      (last_one from_server response) refl unasked
