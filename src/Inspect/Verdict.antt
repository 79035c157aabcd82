-- ===== src/Inspect/Verdict.antt =====
-- src/inspect/dnsinspector.cpp: DNS_Inspector::apply_verdict.
use smithproxy.Base.{
  ℕ, ◌+◌, ◌%◌, Bool, true, false, List, [], ◌∷◌, ◌++◌, Option, none, some, leb, if◌then◌else◌,
  length, take, drop,
}
use smithproxy.Base.Outcome.{Outcome, value, undefined, ◌>>=◌}
use smithproxy.Base.Bytes.{Buffers, swap16, swap32, bytes16, bytes32}
use smithproxy.Inspect.{Inspector, FlowCx, sub32}

-- A write through a pointer into the data of a buffer, which nothing checks.
unfoldable pub raw_write : List ℕ → ℕ → List ℕ → Outcome (List ℕ)
raw_write b i xs =
    if leb (i + length xs) (length b)
    then value (take i b ++ (xs ++ drop (i + length xs) b))
    else undefined

module _ (B : Buffers) where
  -- The times to live at some positions, less the seconds since the packet was loaded.
  unfoldable pub age_ttls : ℕ → List ℕ → List ℕ → Outcome (List ℕ)
  age_ttls decrement b [] = value b
  age_ttls decrement b (i ∷ is) = do
    ttl ← B.get_at_u32 b i
    b ← raw_write b i (bytes32 (swap32 (sub32 (swap32 ttl) decrement)))
    age_ttls decrement b is

  unfoldable pub mangle : Inspector → List ℕ → Outcome (List ℕ)
  mangle inspector b = do
    b ← raw_write b 0 (bytes16 (swap16 inspector.cached_response_id))
    age_ttls inspector.cached_response_decrement b inspector.cached_response_ttl_idx

  -- What is written for a reply: over TCP with its length before it.
  unfoldable pub framed : Bool → List ℕ → List ℕ
  framed true b = bytes16 (swap16 (length b % 65536)) ++ b
  framed false b = b

  -- The reply stays in the inspector as it was changed. `cx` is the context it is written to.
  unfoldable pub apply_reply : Option (List ℕ) → Inspector → FlowCx → Outcome (Inspector × FlowCx)
  apply_reply none inspector cx = value (inspector, cx)
  apply_reply (some b) inspector cx = do
    b ← mangle inspector b
    value (
      record inspector { cached_response = some b },
      record cx { sent = cx.sent ++ framed inspector.is_tcp b ∷ [] },
    )

  unfoldable pub apply_verdict : Inspector → FlowCx → Outcome (Inspector × FlowCx)
  apply_verdict inspector cx = apply_reply inspector.cached_response inspector cx
