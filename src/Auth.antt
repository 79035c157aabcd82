-- ===== src/Auth.antt =====
-- src/shm/shmauth.hpp and src/shm/shmauth.cpp: the rows that the authentication daemon shares, and
-- what the proxy keeps of an identity. src/policy/authfactory.hpp: the tables of identities.
pub mod Tables
pub mod Resolve
mod Lookup
pub mod Groups
pub mod Row
pub mod Kept
pub mod Reached
pub mod Known
pub mod Idle
use smithproxy.Base.{
  ℕ, zero, suc, ◌+◌, ◌-◌, ◌<◌, ◌%◌, ◌^◌, ◌≡◌, Bool, List, [], ◌∷◌, ◌++◌, Option, none, some, Text,
  ◌==◌, ltb, if◌then◌else◌, length, take, drop, replicate,
}
use smithproxy.Base.Int.{ℤ, pos, negsuc}
use smithproxy.Base.Outcome.{Outcome, value, undefined, ◌>>=◌}

abbrev pub username_sz : ℕ
username_sz = 64

abbrev pub groups_sz : ℕ
groups_sz = 128

-- inet_pton and inet_ntop of the C library, for addresses of a number of bytes.
pub record Inet : Type 0 where
  pub pton : ℕ → Text → Option (List ℕ)
  pub ntop : ℕ → List ℕ → Text

-- What the callers rely on.
pub record IsInet (inet : Inet) : Type 0 where
  pub sized : (n : ℕ) (i : Text) (a : List ℕ) → inet.pton n i ≡ some a → length a ≡ n

-- A std::string made of a char pointer; without a zero byte the read leaves the array.
unfoldable pub c_string : List ℕ → Outcome Text
c_string [] = undefined
c_string (c ∷ cs) = if c == 0 then value [] else (do rest ← c_string cs; value (c ∷ rest))

-- strncpy over the bytes of an array.
unfoldable pub strncpy : List ℕ → Text → ℕ → List ℕ
strncpy dest src zero = dest
strncpy [] src (suc n) = []
strncpy (b ∷ dest) [] (suc n) = 0 ∷ strncpy dest [] n
strncpy (b ∷ dest) (c ∷ src) (suc n) = c ∷ strncpy dest src n

abbrev pub plus : ℕ
plus = b'+'

-- The end of a group: where it is empty, the rest of the text is taken as one group.
unfoldable pub at_plus : Text → Text → List Text → List Text
at_plus [] rest others = rest ∷ []
at_plus (x ∷ xs) rest others = (x ∷ xs) ∷ others

-- The loop over the texts between pluses. `piece` are the characters since the last plus.
unfoldable pub groups_loop : Text → Text → List Text
groups_loop piece [] = piece ∷ []
groups_loop piece (c ∷ cs) =
    let ended = at_plus piece (c ∷ cs) (groups_loop [] cs) in
    let longer = groups_loop (piece ++ c ∷ []) cs in if c == plus then ended else longer

-- unsigned int values.
abbrev pub low32 : ℕ → ℕ
low32 n = n % 2 ^ 32

unfoldable pub unsigned_of : ℤ → ℕ
unsigned_of (pos n) = low32 n
unsigned_of (negsuc n) = 2 ^ 32 - 1 - low32 n

-- An IdentityInfo with the row it was made of.
pub record IdentityInfo : Type 0 where
  pub idle_timeout : ℕ
  pub created : ℕ
  pub ip : Text
  pub username : Text
  pub groups : Text
  pub groups_vec : List Text
  pub rx_bytes : ℕ
  pub tx_bytes : ℕ
  pub last_seen_at : ℕ
  pub last_seen_policy : ℕ
  pub last_logon_info : List ℕ

unfoldable pub touch : ℕ → IdentityInfo → IdentityInfo
touch now id = record id { last_seen_at = low32 now }

-- The difference is one of 64 bits; a clock that went back gives a negative one.
unfoldable pub i_timeout : ℕ → IdentityInfo → Bool
i_timeout now id = ltb id.idle_timeout (now - id.last_seen_at)

-- The constructor, with a new row of `size` bytes.
unfoldable pub new_identity : ℕ → ℕ → ℕ → IdentityInfo
new_identity size global_idle_timeout now = record {
  idle_timeout = global_idle_timeout;
  created = low32 now;
  ip = [];
  username = [];
  groups = [];
  groups_vec = [];
  rx_bytes = 0;
  tx_bytes = 0;
  last_seen_at = low32 now;
  last_seen_policy = 0;
  last_logon_info = replicate size 0;
}

-- The rows of one family: the number of bytes of an address, 4 or 16.
module _ (inet : Inet) (address_size : ℕ) where
  unfoldable pub record_size : ℕ
  record_size = address_size + username_sz + groups_sz

  -- The address as inet_pton leaves it, over the bytes of a zeroed row.
  unfoldable pub address_bytes : Option (List ℕ) → List ℕ → List ℕ
  address_bytes none row = row
  address_bytes (some a) row = a ++ drop address_size row

  unfoldable pub copied : List ℕ → ℕ → Text → ℕ → List ℕ
  copied row at src n = take at row ++ strncpy (drop at row) src n

  unfoldable pub logon_info : Text → Text → Text → List ℕ
  logon_info i u g =
      let row = address_bytes (inet.pton address_size i) (replicate record_size 0) in
      copied (copied row address_size u (username_sz - 1)) (address_size + username_sz) g
        (groups_sz - 1)

  unfoldable pub row_ip : List ℕ → Text
  row_ip row = inet.ntop address_size (take address_size row)

  unfoldable pub row_username : List ℕ → Outcome Text
  row_username row = c_string (drop address_size row)

  unfoldable pub row_groups : List ℕ → Outcome Text
  row_groups row = c_string (drop (address_size + username_sz) row)

  unfoldable pub update : IdentityInfo → Outcome IdentityInfo
  update id = do
    groups ← row_groups id.last_logon_info
    value (record id { groups = groups; groups_vec = groups_loop [] groups })
