-- ===== src/Socks/Progress.antt =====
-- What process_in and the DNS answer can do to the state machine, and by which exceptions they end.
use smithproxy.Base.{
  ℕ, ◌+◌, ◌≡◌, refl, ◌≢◌, ◌⊎◌, inl, inr, Bool, true, false, List, leb, if◌then◌else◌, length,
  get_elem?, Option-cases,
}
use smithproxy.Base.Outcome.{Outcome, Exception, value, throws, out_of_range}
use smithproxy.Base.Outcome
use smithproxy.Base.Bytes.{IsBuffers, byte_at, word_at, dword_at, sixteen_at}
use smithproxy.Socks.{
  Cx, Env, Ended, done, raised, ◌>>=◌, reading, State, policy_received, reqres_sent, handoff,
  zombie,
}

-- No verdict was answered yet.
abbrev pub IsEarly : State → Type 0
IsEarly policy_received = ⊥
IsEarly reqres_sent = ⊥
IsEarly handoff = ⊥
IsEarly zombie = ⊥
IsEarly s = Unit {0}

module _ (env : Env) where
  -- The exceptions that reads and `stoi` may end by.
  abbrev pub Allowed : Exception → Type 0
  Allowed e = (e ≡ out_of_range) ⊎ (env.stoi env.source_port ≡ throws e)

  pub data Fine {A : Type 0} : Ended A → Type 0 where
    fine_done : (a : A) (cx : Cx) → IsEarly cx.state → Fine (done (a, cx))
    fine_raised : (e : Exception) (cx : Cx) → IsEarly cx.state → Allowed e → Fine (raised e cx)

  -- A read that gives a value or throws what is allowed.
  pub data Reads {A : Type 0} : Outcome A → Type 0 where
    reads_value : (a : A) → Reads (value a)
    reads_throws : (e : Exception) → Allowed e → Reads (throws e)

  pub Fine->>= :
      {A B : Type 0} {m : Ended A} (f : A × Cx → Ended B)
      → Fine m
      → ((a : A) (cx : Cx) → IsEarly cx.state → Fine (f (a, cx)))
      → Fine (m >>= f)
  Fine->>= f (fine_done a cx h) k = k a cx h
  Fine->>= f (fine_raised e cx h x) k = fine_raised e cx h x

  pub Fine-if :
      {A : Type 0} (b : Bool) {m n : Ended A} → Fine m → Fine n → Fine (if b then m else n)
  Fine-if true h k = h
  Fine-if false h k = k

  pub Fine-reading :
      {A : Type 0} {o : Outcome A} (cx : Cx) → Reads o → IsEarly cx.state → Fine (reading o cx)
  Fine-reading cx (reads_value a) h = fine_done a cx h
  Fine-reading cx (reads_throws e x) h = fine_raised e cx h x

  Reads->>= :
      {A B : Type 0} {m : Outcome A} (f : A → Outcome B)
      → Reads m
      → ((a : A) → Reads (f a))
      → Reads (Outcome.◌>>=◌ m f)
  Reads->>= f (reads_value a) k = k a
  Reads->>= f (reads_throws e x) k = reads_throws e x

  byte_at-Reads : (b : List ℕ) (i : ℕ) → Reads (byte_at b i)
  byte_at-Reads b i = elim (Option-cases (get_elem? b i)) [
    | inl e ↦ rw (e, byte_at) (reads_throws out_of_range (inl refl))
    | inr (x, e) ↦ rw (e, byte_at) (reads_value x)
  ]

  word_at-Reads : (b : List ℕ) (i : ℕ) → Reads (word_at b i)
  word_at-Reads b i =
      Reads->>= _ (byte_at-Reads b i)
        λ lo. Reads->>= _ (byte_at-Reads b (i + 1)) λ hi. reads_value _

  dword_at-Reads : (b : List ℕ) (i : ℕ) → Reads (dword_at b i)
  dword_at-Reads b i =
      Reads->>= _ (word_at-Reads b i)
        λ lo. Reads->>= _ (word_at-Reads b (i + 2)) λ hi. reads_value _

  sixteen_at-Reads : (b : List ℕ) (i : ℕ) → Reads (sixteen_at b i)
  sixteen_at-Reads b i = pick (leb (i + 16) (length b)) (reads_value _) (reads_throws _ (inl refl))
    where
      pick : (t : Bool) {m n : Outcome (List ℕ)} → Reads m → Reads n → Reads (if t then m else n)
      pick true h k = h
      pick false h k = k

  module _ (laws : IsBuffers env.buffers) where
    pub get_at_u8-Reads : (b : List ℕ) (i : ℕ) → Reads (env.buffers.get_at_u8 b i)
    get_at_u8-Reads b i = rw (laws.reads_u8 b i) (byte_at-Reads b i)

    pub get_at_u16-Reads : (b : List ℕ) (i : ℕ) → Reads (env.buffers.get_at_u16 b i)
    get_at_u16-Reads b i = rw (laws.reads_u16 b i) (word_at-Reads b i)

    pub get_at_u32-Reads : (b : List ℕ) (i : ℕ) → Reads (env.buffers.get_at_u32 b i)
    get_at_u32-Reads b i = rw (laws.reads_u32 b i) (dword_at-Reads b i)

    pub copy_from_16-Reads : (b : List ℕ) (i : ℕ) → Reads (env.buffers.copy_from_16 b i)
    copy_from_16-Reads b i = rw (laws.copies b i) (sixteen_at-Reads b i)

  pub stoi-Reads : env.stoi env.source_port ≢ Outcome.undefined → Reads (env.stoi env.source_port)
  stoi-Reads h = go (env.stoi env.source_port) refl
    where
      go : (o : Outcome ℕ) → env.stoi env.source_port ≡ o → Reads o
      go (value p) e = reads_value p
      go (throws x) e = reads_throws x (inr e)
      go Outcome.undefined e = absurd (h e)
