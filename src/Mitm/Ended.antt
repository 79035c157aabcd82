-- ===== src/Mitm/Ended.antt =====
-- on_error of src/proxy/mitmproxy.cpp, called again and again.
use smithproxy.Base.{
  ℕ, ◌+◌, ◌≤◌, ◌<◌, ◌≡◌, refl, sym, ap, if_yes, if_no, if◌then◌else◌, ◌∙◌, Bool, true, false, List,
  [], ◌∷◌, some, ltb, lt→ltb, ltb→lt, arith,
}
use smithproxy.Mitm.Close.{Ending, hold, on_half_close, monitored, peer_error, on_error, on_errors}

-- A session over TCP that lives, whose peer has data to be written; the time of the first
-- half-close, or 0.
abbrev pub pending : ℕ → Bool → Ending
pending timer write_monitored = record {
  dead = false;
  is_datagram = false;
  half_holdtimer = timer;
  peer = some (record { has_com = true; writebuf_empty = false });
  write_monitored = write_monitored;
}

-- Whether a time is at the limit or behind it.
abbrev pub any_late : ℕ → List ℕ → Bool
any_late limit [] = false
any_late limit (now ∷ times) = if ltb now limit then any_late limit times else true

module _ (half_timeout : ℕ) where
  on_error-starts :
      (now : ℕ) (w : Bool) → on_error half_timeout now (pending 0 w) ≡ pending now true
  unfolding on_error peer_error on_half_close monitored hold
  on_error-starts now w = refl

  not_before : (a b : ℕ) → b ≤ a → ltb a b ≡ false
  not_before a b h = ground arith

  on_error-holds :
      (now timer : ℕ) (w : Bool)
      → 0 < timer
      → now < timer + half_timeout
      → on_error half_timeout now (pending timer w) ≡ pending timer true
  unfolding on_error peer_error on_half_close monitored hold
  on_error-holds now timer w p l = rw (lt→ltb 0 timer p, lt→ltb _ _ l) refl

  on_error-ends :
      (now timer : ℕ) (w : Bool)
      → 0 < timer
      → timer + half_timeout ≤ now
      → on_error half_timeout now (pending timer w) ≡ record (pending timer w) { dead = true }
  unfolding on_error peer_error on_half_close monitored hold
  on_error-ends now timer w p l = rw (lt→ltb 0 timer p, not_before _ _ l) refl

  on_errors-dead :
      (times : List ℕ) (timer : ℕ) (w : Bool)
      → (on_errors half_timeout times (record (pending timer w) { dead = true })).dead ≡ true
  unfolding on_errors on_error
  on_errors-dead [] timer w = refl
  on_errors-dead (now ∷ times) timer w = on_errors-dead times timer w

  -- Whether the session is dead after further errors.
  after : List ℕ → Ending → Bool
  after times s = (on_errors half_timeout times s).dead

  by_time :
      (times : List ℕ) (timer : ℕ) (w : Bool)
      → 0 < timer
      → after times (pending timer w) ≡ any_late (timer + half_timeout) times
  unfolding on_errors after
  by_time [] timer w p = refl
  by_time (now ∷ times) timer w p =
      step (ltb now (timer + half_timeout)) refl (by_time times timer true p)
    where
      step :
          (b : Bool)
          → ltb now (timer + half_timeout) ≡ b
          → after times (pending timer true) ≡ any_late (timer + half_timeout) times
          → after times (on_error half_timeout now (pending timer w)) ≡ (
              if ltb now (timer + half_timeout)
              then any_late (timer + half_timeout) times
              else true)
      step true l later =
          ap (after times) (on_error-holds now timer w p (ltb→lt _ _ l))
          ∙ later
          ∙ sym (if_yes _ _ _ l)
      step false l later =
          ap (after times) (on_error-ends now timer w p (late _ _ l))
          ∙ on_errors-dead times timer w
          ∙ sym (if_no _ _ _ l)
        where
          late : (a b : ℕ) → ltb a b ≡ false → b ≤ a
          late a b e = ground arith

  -- A session over TCP with data that its peer has still to write, from the first error of a
  -- context on, at a time that is not 0: after further errors, at whatever times, it is dead if
  -- one of them came half_timeout seconds or more after the first error, and lives if none did.
  pub on_errors-half_timeout :
      (first : ℕ) (times : List ℕ) (w : Bool)
      → 0 < first
      → (on_errors half_timeout (first ∷ times) (pending 0 w)).dead
        ≡ any_late (first + half_timeout) times
  unfolding on_errors after
  on_errors-half_timeout first times w p =
      ap (after times) (on_error-starts first w) ∙ by_time times first true p
