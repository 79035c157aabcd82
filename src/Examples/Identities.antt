-- ===== src/Examples/Identities.antt =====
-- A table of identities with one row, and what the theorems say of it.
use smithproxy.Base.{
  true, ℕ, ◌≡◌, refl, false, List, [], ◌∷◌, none, some, Text, length, ◌==◌, if◌then◌else◌, arith,
}
use smithproxy.Base.Int.{pos}
use smithproxy.Base.Outcome.{value}
use smithproxy.Dns.Response.{ascii}
use smithproxy.Policy.Rule.{Rule, action_pass}
use smithproxy.Session.{AuthProfile}
use smithproxy.Auth.{
  new_identity, update, c_string, at_plus, copied, strncpy, address_bytes, record_size, Inet,
  IsInet, IdentityInfo, groups_loop, logon_info, row_ip, row_username, row_groups,
}
use smithproxy.Auth.Tables.{
  SharedMap, TableEnv, Table, find, insert, shm_table_refresh, timeout_check, acquired, loaded_rows,
  refresh_rows, refresh_row, flushed, with_row, start_identity,
}
use smithproxy.Auth.Resolve.{sub_auths, profile_of, follows_null, Login, resolve_table}
use smithproxy.Auth.Groups.{groups_loop-join, groups_loop-empty_group}
use smithproxy.Auth.Row.{logon_info-fields}
use smithproxy.Auth.Idle.{expired, timeout_check-expired}
use smithproxy.Auth.Kept.{IsKept}
use smithproxy.Auth.Reached.{Reach-IsKept, here, next, refreshes}
use smithproxy.Auth.Known.{Harmless, Answer, resolve_table-known}
use smithproxy.Policy.Table.{lookup_policy}
use smithproxy.Examples.{server_rule}

groups_loop-join_example :
    groups_loop [] (ascii "admins+staff") ≡ ascii "admins" ∷ ascii "staff" ∷ []
groups_loop-join_example = groups_loop-join (ascii "admins") (ascii "staff" ∷ []) (omega arith)

groups_loop-empty_group_example :
    groups_loop [] (ascii "admins++staff") ≡ ascii "admins" ∷ ascii "+staff" ∷ []
groups_loop-empty_group_example =
    groups_loop-empty_group (ascii "admins" ∷ []) (ascii "staff") (omega arith)

-- Addresses that are written as their bytes.
abbrev pub plain_inet : Inet
plain_inet = record { pton = λ n i. if length i == n then some i else none; ntop = λ n a. a }

plain_inet-IsInet : IsInet plain_inet
plain_inet-IsInet = record { sized = λ n i a e. sized n i a e }
  where
    sized : (n : ℕ) (i a : Text) → (if length i == n then some i else none) ≡ some a → length a ≡ n
    sized n i a e = ground arith

abbrev pub row : List ℕ
row = logon_info plain_inet 4 (ascii "10.1") (ascii "joe") (ascii "admins+staff")

logon_info-fields_example :
    (row_ip plain_inet 4 row ≡ ascii "10.1")
    × (row_username plain_inet 4 row ≡ value (ascii "joe"))
    × (row_groups plain_inet 4 row ≡ value (ascii "admins+staff"))
logon_info-fields_example =
    logon_info-fields plain_inet 4 plain_inet-IsInet (ascii "10.1") (ascii "joe")
      (ascii "admins+staff") (ascii "10.1") refl (omega arith) (omega arith)

-- A shared table that holds its rows, and is always there.
abbrev pub plain_shm : SharedMap
plain_shm = record {
  State = List (List ℕ);
  attach = λ s. s;
  acquire = λ s. (pos 0, s);
  load = λ s. (pos (length s), s);
  release = λ s. s;
  entries = λ s. s;
  map_has = λ host s. false;
  map_erase = λ host s. s;
  save = λ s. s;
}

abbrev pub plain_tables : TableEnv
plain_tables = record {
  inet = plain_inet;
  address_size = 4;
  shm = plain_shm;
  global_idle_timeout = 600;
}

abbrev joe : IdentityInfo
joe = record {
  idle_timeout = 600;
  created = 1000;
  ip = ascii "10.1";
  username = ascii "joe";
  groups = ascii "admins+staff";
  groups_vec = ascii "admins" ∷ ascii "staff" ∷ [];
  rx_bytes = 0;
  tx_bytes = 0;
  last_seen_at = 1000;
  last_seen_policy = 0;
  last_logon_info = row;
}

abbrev shared_row : Table plain_tables
shared_row = record { ip_map = []; shared = row ∷ [] }

abbrev known_joe : Table plain_tables
known_joe = record { ip_map = (ascii "10.1", joe) ∷ []; shared = row ∷ [] }

shared_row-refreshed : shm_table_refresh plain_tables 1000 shared_row ≡ value (known_joe, pos 1)
unfolding shm_table_refresh acquired loaded_rows refresh_rows refresh_row flushed with_row
    start_identity find insert new_identity update row_ip row_username row_groups c_string
    groups_loop at_plus logon_info copied strncpy address_bytes record_size
shared_row-refreshed = refl

empty-IsKept : IsKept plain_tables []
unfolding find
empty-IsKept = record { distinct = tt; sound = λ host id e. absurd (cc) }

abbrev no_rules : List (Rule Text)
no_rules = []

abbrev no_profiles : List AuthProfile
no_profiles = []

Reach-IsKept_example : IsKept plain_tables known_joe.ip_map
Reach-IsKept_example =
    Reach-IsKept plain_tables no_rules no_profiles (ascii "guests") empty-IsKept
      (next {u = shared_row} here (refreshes 1000 (pos 1) shared_row-refreshed))

-- At 1700 the identity is idle for more than 600 seconds.
timeout_check-expired_example :
    find (ascii "10.1") (timeout_check plain_tables 1700 known_joe).ip_map
    ≡ expired 1700 (find (ascii "10.1") known_joe.ip_map)
unfolding find
timeout_check-expired_example =
    timeout_check-expired plain_tables 1700 (ascii "10.1") known_joe (nothing, tt)
  where
    nothing : find (ascii "10.1") [] ≡ none
    nothing = refl

abbrev unknown : Login
unknown = record {
  identity_resolved = false;
  identity = none;
  matched_policy = pos 0;
  sub_profile = none;
}

-- A rule whose sub-policy has a DNS and a TLS profile.
abbrev staff_rule : Rule Text
staff_rule = record (server_rule action_pass) { profile_auth = some 0 }

abbrev pass_rules : List (Rule Text)
pass_rules = staff_rule ∷ []

abbrev staff_profiles : List AuthProfile
staff_profiles =
    record {
      authenticate = true;
      resolve = true;
      sub_policies =
          record { element_name = ascii "staff"; profile_tls = true; profile_alg_dns = true } ∷ [];
    }
    ∷ []

first_rule : lookup_policy pass_rules (pos 0) ≡ some staff_rule
unfolding lookup_policy
first_rule = refl

harmless : Harmless pass_rules staff_profiles (some 53) staff_rule
unfolding sub_auths profile_of follows_null
harmless = (refl, tt)

resolve_table-known_example :
    Answer pass_rules staff_profiles
      (some 53)
      plain_tables
      (ascii "guests")
      1000
      (ascii "10.1")
      unknown
      (expired 1000 (find (ascii "10.1") known_joe.ip_map))
      (resolve_table pass_rules staff_profiles
        (some 53)
        plain_tables
        (ascii "guests")
        1000
        false
        (ascii "10.1")
        unknown
        shared_row)
resolve_table-known_example =
    resolve_table-known pass_rules staff_profiles (some 53) plain_tables (ascii "guests") 1000 false
      (ascii "10.1") unknown staff_rule shared_row known_joe (pos 1) empty-IsKept refl first_rule
      harmless shared_row-refreshed
