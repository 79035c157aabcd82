-- ===== src/Inspect.antt =====
-- src/inspect/dnsinspector.cpp and policy/inspectors.hpp: the state of the DNS inspector, the flow it
-- looks at and the caches it shares with the others.
pub mod Requests
pub mod Responses
pub mod Update
pub mod Verdict
pub mod Host
pub mod Once
pub mod Sound
pub mod Steady
pub mod Sustained
pub mod Written
pub mod Aged
pub mod Fresh
pub mod Unasked
pub mod Answered
pub mod Exchange
use smithproxy.Base.{
  ℕ, ◌+◌, ◌-◌, ◌%◌, ◌^◌, ◌≡◌, ◌⊎◌, Bool, true, false, List, [], ◌∷◌, Option, none, some, Text, ◌==◌,
  if◌then◌else◌,
}
use smithproxy.Base.Outcome.{Outcome, value, throws, undefined}
use smithproxy.Base.Bytes.{Buffers}
use smithproxy.Dns.{Packet, Answer}
use smithproxy.Dns.Loader.{Ending, done, raised, lost, starved}

pub data InspectVerdict : Type 0 where
  verdict_ok verdict_block verdict_cached : InspectVerdict

-- A DNS_Response: the packet and the bytes it was loaded from.
pub record Response : Type 0 where
  pub packet : Packet
  pub cached_packet : Option (List ℕ)

-- What the inspector uses of the context it is called with.
pub record FlowCx : Type 0 where
  pub l4_proto : ℕ
  pub nonlocal_dst_port : ℕ
  pub idle_delay : ℕ
  pub in_error : Bool
  pub writebuf : List ℕ
  -- What was written to the peer with io_write, in order.
  pub sent : List (List ℕ)

pub record Inspector : Type 0 where
  pub opt_cached_responses : Bool
  pub in_progress : Bool
  pub stage : ℕ
  pub verdict : InspectVerdict
  pub is_tcp : Bool
  pub cached_response : Option (List ℕ)
  pub cached_response_id : ℕ
  pub cached_response_ttl_idx : List ℕ
  pub cached_response_decrement : ℕ
  pub requests : List (ℕ × Packet)
  pub responses : ℕ
  pub stored : Bool

-- An inspector as its constructor leaves it.
abbrev pub new_inspector : Inspector
new_inspector = record {
  opt_cached_responses = false;
  in_progress = false;
  stage = 0;
  verdict = verdict_ok;
  is_tcp = false;
  cached_response = none;
  cached_response_id = 0;
  cached_response_ttl_idx = [];
  cached_response_decrement = 0;
  requests = [];
  responses = 0;
  stored = false;
}

-- The socle library's `ptr_cache` of responses by question, and that of sub-domains by domain, which
-- are not part of this repository, and the text of an address.
pub record Env : Type 1 where
  pub buffers : Buffers
  pub ip : Answer → Text
  pub Cache : Type 0
  pub cache_get : Cache → Text → Option Response
  pub cache_set : Cache → Text → Response → Cache
  pub Domains : Type 0
  pub has_domain : Domains → Text → Bool
  -- A sub-domain for some seconds under a domain that is there, or under a new one.
  pub set_subdomain : Domains → Text → Text → ℕ → Domains
  pub add_domain : Domains → Text → Text → ℕ → Domains

-- A cache may drop what it holds, but holds nothing that was not put into it under that name.
pub record IsCache (env : Env) : Type 0 where
  pub holds_set :
      (c : env.Cache) (k l : Text) (r s : Response)
      → env.cache_get (env.cache_set c k r) l ≡ some s
      → (s ≡ r) ⊎ (env.cache_get c l ≡ some s)

-- The context, the inspector and the caches.
pub record World (env : Env) : Type 0 where
  pub cx : FlowCx
  pub inspector : Inspector
  pub cache : env.Cache
  pub domains : env.Domains

-- A difference of two uint32_t, or of two times that is stored in one.
abbrev pub sub32 : ℕ → ℕ → ℕ
sub32 a b = (a + (4294967296 - b % 4294967296)) % 4294967296

abbrev pub sock_stream : ℕ
sock_stream = 1

unfoldable pub dns_prefilter : FlowCx → Bool
dns_prefilter cx = cx.nonlocal_dst_port == 53

unfoldable pub find_request : ℕ → List (ℕ × Packet) → Option Packet
find_request id [] = none
find_request id ((i, p) ∷ rs) = if i == id then some p else find_request id rs

unfoldable pub erase_request : ℕ → List (ℕ × Packet) → List (ℕ × Packet)
erase_request id [] = []
erase_request id ((i, p) ∷ rs) =
    if i == id then erase_request id rs else (i, p) ∷ erase_request id rs

-- `requests_[id] = ptr`, after a request that was there is erased.
unfoldable pub note_request : ℕ → Packet → List (ℕ × Packet) → List (ℕ × Packet)
note_request id p rs = (id, p) ∷ erase_request id rs

-- A call of DNS_Packet::load: the position and the packet of a success.
unfoldable pub loaded : Ending (Option ℕ) → Outcome (Option (ℕ × Packet))
loaded (done none p) = value none
loaded (done (some n) p) = value (some (n, p))
loaded (raised e p) = throws e
loaded lost = undefined
loaded starved = undefined
