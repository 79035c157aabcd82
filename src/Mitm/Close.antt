-- ===== src/Mitm/Close.antt =====
-- on_error and on_half_close of src/proxy/mitmproxy.cpp: the end of a session whose peer has data
-- that is not yet written.
use smithproxy.Base.{ℕ, ◌+◌, Bool, true, List, [], ◌∷◌, Option, none, some, ltb, if◌then◌else◌}

-- The peer of a context: whether it has a com(), and whether its write buffer is empty.
pub record Peer : Type 0 where
  pub has_com : Bool
  pub writebuf_empty : Bool

-- What the end of a session depends on: the peer of the context with the error, whether the
-- com() is one of datagrams, the time of the first half-close, and whether the peer's socket was
-- put under the write monitor.
pub record Ending : Type 0 where
  pub dead : Bool
  pub is_datagram : Bool
  pub half_holdtimer : ℕ
  pub peer : Option Peer
  pub write_monitored : Bool

module _ (half_timeout : ℕ) where
  -- With a peer and its com(). The expiry is positive before the timer is up.
  unfoldable pub hold : ℕ → Ending → Ending
  hold now s =
      if ltb 0 s.half_holdtimer
      then if ltb now (s.half_holdtimer + half_timeout) then s else record s { dead = true }
      else record s { half_holdtimer = now }

  unfoldable pub on_half_close : ℕ → Option Peer → Ending → Ending
  on_half_close now none s = record s { dead = true }
  on_half_close now (some peer) s = if peer.has_com then hold now s else record s { dead = true }

  unfoldable pub monitored : Ending → Ending
  monitored s = if s.dead then s else record s { write_monitored = true }

  unfoldable pub peer_error : ℕ → Option Peer → Ending → Ending
  peer_error now none s = record s { dead = true }
  peer_error now (some peer) s =
      if peer.writebuf_empty
      then record s { dead = true }
      else monitored (on_half_close now s.peer s)

  -- On a context that is there. What is left to do on a dead session changes nothing of this.
  unfoldable pub on_error : ℕ → Ending → Ending
  on_error now s =
      if s.dead
      then s
      else if s.is_datagram
      then record s { dead = true }
      else peer_error now s.peer s

  unfoldable pub on_errors : List ℕ → Ending → Ending
  on_errors [] s = s
  on_errors (now ∷ times) s = on_errors times (on_error now s)
