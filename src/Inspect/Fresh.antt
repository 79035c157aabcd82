-- ===== src/Inspect/Fresh.antt =====
-- src/inspect/dnsinspector.cpp: a reply from the cache, from the test of its age to its writing.
use smithproxy.Base.{ℕ, ◌+◌, ◌-◌, ◌≤◌, ◌≡◌, List, All}
use smithproxy.Base.Outcome.{value}
use smithproxy.Base.Bytes.{IsBuffers, dword_at, swap32}
use smithproxy.Inspect.{Env}

module _ (env : Env) (laws : IsBuffers env.buffers) (now : ℕ) where
  open env use {buffers}

  -- No time to live of the packet is over.
  abbrev AllFresh : List ℕ → ℕ → List ℕ → Type 0
  AllFresh b loaded_at is =
      All (λ i. (t : ℕ) × (dword_at b i ≡ value t) × (now ≤ swap32 t + loaded_at)) is

  -- What is left of each time to live.
  abbrev Left : List ℕ → List ℕ → ℕ → List ℕ → Type 0
  Left b c age is =
      All
        (λ i.
          (t : ℕ) × (dword_at b i ≡ value t)
          × (age ≤ swap32 t)
          × (dword_at c i ≡ value (swap32 (swap32 t - age))))
        is
