-- ===== src/Inspect/Update.antt =====
-- src/inspect/dnsinspector.cpp: DNS_Inspector::update.
use smithproxy.Base.{ℕ, true, List, [], ◌∷◌, ◌==◌, ltb, if◌then◌else◌, length}
use smithproxy.Base.Outcome.{Outcome, value, undefined, ◌>>=◌}
use smithproxy.Base.Bytes.{swap16}
use smithproxy.Inspect.{Env, World, Inspector, FlowCx, sock_stream}
use smithproxy.Inspect.Requests.{request_loop}
use smithproxy.Inspect.Responses.{response_loop}

abbrev pub from_client : ℕ
from_client = 114

abbrev pub from_server : ℕ
from_server = 119

-- `back()` of the flow queue, whose entries are a source and the data.
unfoldable pub last_entry : List (ℕ × List ℕ) → Outcome (ℕ × List ℕ)
last_entry [] = undefined
last_entry (x ∷ []) = value x
last_entry (x ∷ y ∷ ys) = last_entry (y ∷ ys)

-- The first update notes the transport.
unfoldable pub begin : FlowCx → Inspector → Inspector
begin cx inspector =
    if inspector.in_progress
    then inspector
    else if cx.l4_proto == sock_stream
    then record inspector { is_tcp = true; in_progress = true }
    else record inspector { in_progress = true }

module _ (env : Env) (now : ℕ) where
  open env use {buffers}

  unfoldable pub at_stage : ℕ → World env → World env
  at_stage n w = record w { inspector = record w.inspector { stage = n } }

  unfoldable pub read_entry : ℕ → List ℕ → ℕ → World env → Outcome (World env)
  read_entry source bytes red w =
      if source == from_client
      then request_loop env now bytes 10 red (at_stage 0 w)
      else if source == from_server
      then response_loop env now bytes 10 red (at_stage 1 w)
      else value w

  -- Over TCP the length of the message stands before it. It is compared with all the data there are.
  unfoldable pub read_transport : ℕ → List ℕ → World env → Outcome (World env)
  read_transport source bytes w =
      if w.inspector.is_tcp
      then (do
        size ← buffers.get_at_u16 bytes 0
        if ltb (length bytes) (swap16 size) then value w else read_entry source bytes 2 w)
      else read_entry source bytes 0 w

  unfoldable pub update : List (ℕ × List ℕ) → World env → Outcome (World env)
  update flow w = do
    (source, bytes) ← last_entry flow
    read_transport source bytes (record w { inspector = begin w.cx w.inspector })
