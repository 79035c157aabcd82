-- ===== src/Inspect/Sustained.antt =====
-- src/inspect/dnsinspector.cpp: what an update needs, and what it keeps.
use smithproxy.Base.{
  ℕ, ◌+◌, ◌≤◌, ◌<◌, ◌≡◌, true, List, some, length, get_elem?, if-keeps, if-cases, ltb, ◌==◌,
}
use smithproxy.Base.Outcome.{value, Yields, Yields-value}
use smithproxy.Base.Bytes.{IsBuffers, swap16}
use smithproxy.Base.Views.{word_at-inside}
use smithproxy.Inspect.{Env, IsCache, World, Inspector, FlowCx, sock_stream}
use smithproxy.Inspect.Update.{
  update, last_entry, begin, read_transport, read_entry, at_stage, from_client, from_server,
}
use smithproxy.Inspect.Sound.{SoundWorld, SoundReply}
use smithproxy.Inspect.Steady.{request_loop-Keeps, response_loop-Keeps}

module _ (env : Env) (laws : IsBuffers env.buffers) (cache_laws : IsCache env) (now : ℕ) where
  open env use {buffers}

  module _ (source : ℕ) (bytes : List ℕ)
      (ends : (j c : ℕ) → get_elem? bytes j ≡ some c → 192 ≤ c → j + 1 < length bytes) where
    read_entry-Keeps :
        (red : ℕ) (w : World env)
        → SoundWorld env laws now w
        → Yields (SoundWorld env laws now) (read_entry env now source bytes red w)
    unfolding read_entry at_stage
    read_entry-Keeps red w h =
        if-keeps (Yields (SoundWorld env laws now)) (source == from_client) _ _
          (request_loop-Keeps env laws cache_laws now bytes ends 10 red _ h)
          (if-keeps (Yields (SoundWorld env laws now)) (source == from_server) _ _
            (response_loop-Keeps env laws cache_laws now bytes ends 10 red _ h) h)

    read_transport-Keeps :
        (w : World env)
        → (w.inspector.is_tcp ≡ true → 2 ≤ length bytes)
        → SoundWorld env laws now w
        → Yields (SoundWorld env laws now) (read_transport env now source bytes w)
    unfolding read_transport
    read_transport-Keeps w long h =
        if-cases (Yields (SoundWorld env laws now)) w.inspector.is_tcp _ _
          (λ e.
            let (v, f) = word_at-inside bytes 0 (long e) in
            rw (laws.reads_u16 bytes 0, f)
              (if-keeps (Yields (SoundWorld env laws now)) (ltb (length bytes) (swap16 v)) _ _ h
                (read_entry-Keeps 2 w h)))
          (λ _. read_entry-Keeps 0 w h)

  begin-SoundReply :
      (cx : FlowCx) (inspector : Inspector) → SoundReply inspector → SoundReply (begin cx inspector)
  unfolding begin
  begin-SoundReply cx inspector h =
      if-keeps SoundReply inspector.in_progress _ _ h
        (if-keeps SoundReply (cx.l4_proto == sock_stream) _ _ h h)

  -- An update by a message in which every byte of 192 or more has one behind it, and which has its
  -- length in front over TCP, returns: it throws nothing and reads nothing outside a buffer. It
  -- keeps true that every packet that the cache or the inspector holds has more bytes than a header
  -- and has its noted times to live behind the header, inside the packet, in order and apart.
  pub update-SoundWorld :
      (flow : List (ℕ × List ℕ)) (source : ℕ) (bytes : List ℕ) (w : World env)
      → last_entry flow ≡ value (source, bytes)
      → ((j c : ℕ) → get_elem? bytes j ≡ some c → 192 ≤ c → j + 1 < length bytes)
      → ((begin w.cx w.inspector).is_tcp ≡ true → 2 ≤ length bytes)
      → SoundWorld env laws now w
      → (v : World env) × (update env now flow w ≡ value v) × SoundWorld env laws now v
  unfolding update
  update-SoundWorld flow source bytes w e ends long (sc, sr) =
      Yields-value (SoundWorld env laws now) (update env now flow w) (
        rw e (
          read_transport-Keeps source bytes ends (record w { inspector = begin w.cx w.inspector })
            long (sc, begin-SoundReply w.cx w.inspector sr)))
