-- ===== src/Auth/Tables.antt =====
-- src/policy/authfactory4.cpp and src/policy/authfactory6.cpp: the table of the identities of one
-- address family. The shared table of the socle library enters as an interface; locks are left out.
use smithproxy.Base.{
  ℕ, ◌+◌, Bool, true, false, List, [], ◌∷◌, Option, none, some, Text, same_text, ◌==◌, ltb,
  if◌then◌else◌,
}
use smithproxy.Base.Int.{ℤ, pos, minus_one, ltb_ℤ, eqb_ℤ}
use smithproxy.Base.Outcome.{Outcome, value, ◌>>=◌}
use smithproxy.Auth.{
  Inet, IdentityInfo, low32, i_timeout, new_identity, record_size, row_ip, row_username, update,
}

-- A shared_map: `entries` are the rows that were loaded, `map_entries` has them by their address.
pub record SharedMap : Type 1 where
  pub State : Type 0
  pub attach : State → State
  pub acquire : State → ℤ × State
  pub load : State → ℤ × State
  pub release : State → State
  pub entries : State → List (List ℕ)
  pub map_has : Text → State → Bool
  pub map_erase : Text → State → State
  pub save : State → State

-- What the table of one family is given: inet_pton and inet_ntop, the bytes of an address, the
-- shared map and the idle timeout of a new identity.
pub record TableEnv : Type 1 where
  pub inet : Inet
  pub address_size : ℕ
  pub shm : SharedMap
  pub global_idle_timeout : ℕ

-- The map of the identities by their address.
abbrev pub IpMap : Type 0
IpMap = List (Text × IdentityInfo)

unfoldable pub find : Text → IpMap → Option IdentityInfo
find host [] = none
find host ((k, id) ∷ m) = if same_text k host then some id else find host m

unfoldable pub insert : Text → IdentityInfo → IpMap → IpMap
insert host id [] = (host, id) ∷ []
insert host id ((k, x) ∷ m) = if same_text k host then (k, id) ∷ m else (k, x) ∷ insert host id m

unfoldable pub erase : Text → IpMap → IpMap
erase host [] = []
erase host ((k, x) ∷ m) = if same_text k host then m else (k, x) ∷ erase host m

unfoldable pub is_empty : IpMap → Bool
is_empty [] = true
is_empty (e ∷ m) = false

-- std::less of two texts, and the insertion into a std::set of texts.
unfoldable pub text_lt : Text → Text → Bool
text_lt [] [] = false
text_lt [] (y ∷ ys) = true
text_lt (x ∷ xs) [] = false
text_lt (x ∷ xs) (y ∷ ys) = if ltb x y then true else if x == y then text_lt xs ys else false

unfoldable pub set_insert : Text → List Text → List Text
set_insert x [] = x ∷ []
set_insert x (y ∷ ys) =
    if same_text x y then y ∷ ys else if text_lt x y then x ∷ y ∷ ys else y ∷ set_insert x ys

unfoldable pub timed_out : ℕ → IpMap → List Text → List Text
timed_out now [] to_remove = to_remove
timed_out now ((ip, id) ∷ m) to_remove =
    timed_out now m (if i_timeout now id then set_insert ip to_remove else to_remove)

unfoldable pub groups_of : Option IdentityInfo → Option (List Text)
groups_of none = none
groups_of (some id) = some id.groups_vec

module _ (env : TableEnv) where
  open env use {inet, address_size, shm, global_idle_timeout}

  pub record Table : Type 0 where
    pub ip_map : IpMap
    pub shared : shm.State

  -- The identity found is changed in place, or else a new one is.
  unfoldable pub start_identity : ℕ → Option IdentityInfo → IdentityInfo
  start_identity now none = new_identity (record_size inet address_size) global_idle_timeout now
  start_identity now (some id) = id

  unfoldable pub with_row : List ℕ → Text → IdentityInfo → Outcome IdentityInfo
  with_row rt ip id = do
    username ← row_username inet address_size rt
    update inet address_size (record id { ip = ip; last_logon_info = rt; username = username })

  unfoldable pub refresh_row : ℕ → List ℕ → IpMap → Outcome IpMap
  refresh_row now rt m =
      let ip = row_ip inet address_size rt in
      with_row rt ip (start_identity now (find ip m)) >>= λ id. value (insert ip id m)

  unfoldable pub refresh_rows : ℕ → List (List ℕ) → IpMap → Outcome IpMap
  refresh_rows now [] m = value m
  refresh_rows now (rt ∷ rows) m = do m' ← refresh_row now rt m; refresh_rows now rows m'

  -- A table of size zero flushes the map.
  unfoldable pub flushed : ℤ → IpMap → IpMap
  flushed l m = if eqb_ℤ l (pos 0) then [] else m

  unfoldable pub loaded_rows : ℕ → ℤ × shm.State → IpMap → Outcome (Table × ℤ)
  loaded_rows now (l, s) m =
      let s' = shm.release s in
      if ltb_ℤ l (pos 0) then value (record { ip_map = m; shared = s' }, pos 0) else (do
        m' ← refresh_rows now (shm.entries s') (flushed l m)
        value (record { ip_map = m'; shared = s' }, l))

  unfoldable pub acquired : ℕ → ℤ × shm.State → IpMap → Outcome (Table × ℤ)
  acquired now (rc, s) m =
      if eqb_ℤ rc (pos 0)
      then loaded_rows now (shm.load s) m
      else value (record { ip_map = m; shared = s }, minus_one)

  unfoldable pub shm_table_refresh : ℕ → Table → Outcome (Table × ℤ)
  shm_table_refresh now t = acquired now (shm.acquire (shm.attach t.shared)) t.ip_map

  unfoldable pub get_groups : Text → Table → Option (List Text)
  get_groups host t = groups_of (find host t.ip_map)

  unfoldable pub counted : ℕ → ℕ → IdentityInfo → IdentityInfo
  counted rx tx id = record id {
    rx_bytes = low32 (id.rx_bytes + rx);
    tx_bytes = low32 (id.tx_bytes + tx);
  }

  unfoldable pub count_found : Text → ℕ → ℕ → Option IdentityInfo → Table → Table × Bool
  count_found host rx tx none t = (t, false)
  count_found host rx tx (some id) t =
      (record t { ip_map = insert host (counted rx tx id) t.ip_map }, true)

  unfoldable pub inc_counters : Text → ℕ → ℕ → Table → Table × Bool
  inc_counters host rx tx t = count_found host rx tx (find host t.ip_map) t

  -- The row is taken out of the shared table and the table is written.
  unfoldable pub unshare : Text → shm.State → shm.State
  unshare host s =
      let a = (shm.acquire s).1 in
      shm.release (if shm.map_has host a then shm.save (shm.map_erase host a) else a)

  unfoldable pub remove_found : Text → Option IdentityInfo → Table → Table
  remove_found host none t = t
  remove_found host (some id) t = record {
    ip_map = erase host t.ip_map;
    shared = unshare host t.shared;
  }

  unfoldable pub ip_remove : Text → Table → Table
  ip_remove host t = remove_found host (find host t.ip_map) t

  unfoldable pub remove_each : List Text → Table → Table
  remove_each [] t = t
  remove_each (ip ∷ ips) t = remove_each ips (ip_remove ip t)

  unfoldable pub timeout_check : ℕ → Table → Table
  timeout_check now t = remove_each (timed_out now t.ip_map []) t
