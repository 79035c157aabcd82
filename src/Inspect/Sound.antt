-- ===== src/Inspect/Sound.antt =====
-- src/inspect/dnsinspector.cpp: what the cache and the inspector keep true of the packets they hold.
use smithproxy.Base.{
  ℕ, ◌+◌, ◌<◌, ◌≡◌, refl, List, [], ◌∷◌, Option, none, some, Text, length, if-keeps, ◌&&◌, ◌||◌,
  ◌==◌,
}
use smithproxy.Base.Outcome.{Yields, Yields->>=}
use smithproxy.Base.Bytes.{IsBuffers}
use smithproxy.Base.Views.{dword_at-inside}
use smithproxy.Dns.{Packet, type_a, type_aaaa}
use smithproxy.Dns.Tally.{Spaced}
use smithproxy.Dns.Response.{question_type_0, question_str_0}
use smithproxy.Inspect.{Env, World, Inspector, Response}
use smithproxy.Inspect.Requests.{
  ttl_check, take_cached, no_cached, cached_answer, entry_answer, unless_cached, answer_from_cache,
}

-- The positions lie behind the header and inside the buffer, in order and apart.
abbrev pub Positions : List ℕ → List ℕ → Type 0
Positions bytes is = (12 < length bytes) × ((hi : ℕ) × Spaced (length bytes) 12 is hi)

-- A cached response's packet has its times to live where they were noted.
abbrev pub SoundResponse : Response → Type 0
SoundResponse r =
    (bytes : List ℕ) → r.cached_packet ≡ some bytes → Positions bytes r.packet.answer_ttl_idx

abbrev pub SoundReply : Inspector → Type 0
SoundReply inspector =
    (bytes : List ℕ)
    → inspector.cached_response ≡ some bytes
    → Positions bytes inspector.cached_response_ttl_idx

module _ (env : Env) (laws : IsBuffers env.buffers) (now : ℕ) where
  open env use {buffers, cache_get}

  abbrev pub SoundCache : env.Cache → Type 0
  SoundCache c = (k : Text) (r : Response) → cache_get c k ≡ some r → SoundResponse r

  abbrev pub SoundWorld : World env → Type 0
  SoundWorld w = SoundCache w.cache × SoundReply w.inspector

  ttl_check-Yields :
      (bytes : List ℕ) (loaded_at lo : ℕ) (is : List ℕ) (hi : ℕ)
      → Spaced (length bytes) lo is hi
      → Yields (λ b. Unit {0}) (ttl_check env now bytes loaded_at is)
  unfolding ttl_check
  ttl_check-Yields bytes loaded_at lo [] hi s = tt
  ttl_check-Yields bytes loaded_at lo (i ∷ is) hi (_, inside, s) =
      let (v, e) = dword_at-inside bytes i inside in
      rw (laws.reads_u32 bytes i, e)
        (Yields->>= (λ b. Unit {0}) (λ b. Unit {0}) (ttl_check env now bytes loaded_at is) _
          (ttl_check-Yields bytes loaded_at (i + 4) is hi s) λ b _. tt)

  no_cached-SoundReply : (inspector : Inspector) → SoundReply (no_cached inspector)
  unfolding no_cached
  no_cached-SoundReply inspector bytes e = cc

  cached_answer-SoundReply :
      (request entry : Packet) (o : Option (List ℕ)) (inspector : Inspector)
      → ((bytes : List ℕ) → o ≡ some bytes → Positions bytes entry.answer_ttl_idx)
      → SoundReply inspector
      → Yields SoundReply (cached_answer env now request entry o inspector)
  unfolding cached_answer take_cached
  cached_answer-SoundReply request entry none inspector h s = s
  cached_answer-SoundReply request entry (some bytes) inspector h s =
      let (long, (hi, p)) = h bytes refl in
      Yields->>= (λ b. Unit {0}) SoundReply
        (ttl_check env now bytes entry.loaded_at entry.answer_ttl_idx) _
        (ttl_check-Yields bytes entry.loaded_at 12 entry.answer_ttl_idx hi p)
        λ fresh _. if-keeps SoundReply fresh _ _ (λ x e. h x (e)) s

  entry_answer-SoundReply :
      (request : Packet) (o : Option Response) (inspector : Inspector)
      → ((r : Response) → o ≡ some r → SoundResponse r)
      → SoundReply inspector
      → Yields SoundReply (entry_answer env now request o inspector)
  unfolding entry_answer
  entry_answer-SoundReply request none inspector h s = no_cached-SoundReply inspector
  entry_answer-SoundReply request (some r) inspector h s =
      cached_answer-SoundReply request r.packet r.cached_packet inspector (h r refl) s

  pub answer_from_cache-SoundWorld :
      (request : Packet) (w : World env)
      → SoundWorld w
      → Yields SoundWorld (answer_from_cache env now request w)
  unfolding answer_from_cache unless_cached
  answer_from_cache-SoundWorld request w (sc, sr) =
      if-keeps (Yields SoundWorld)
        (w.inspector.opt_cached_responses
          && ((question_type_0 request == type_a) || (question_type_0 request == type_aaaa)))
        _ _
        (Yields->>= SoundReply SoundWorld
          (entry_answer env now request (cache_get w.cache (question_str_0 request)) w.inspector) _
          (entry_answer-SoundReply request (cache_get w.cache (question_str_0 request)) w.inspector
            (sc (question_str_0 request)) sr)
          λ inspector s. (sc, s))
        (sc, unless w.inspector.cached_response w.inspector sr)
    where
      unless :
          (o : Option (List ℕ)) (inspector : Inspector)
          → SoundReply inspector
          → SoundReply (unless_cached o inspector)
      unless none inspector s = s
      unless (some x) inspector s = no_cached-SoundReply inspector
