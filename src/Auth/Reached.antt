-- ===== src/Auth/Reached.antt =====
-- Whatever happens to a table of identities: src/policy/authfactory4.cpp, authfactory6.cpp and the
-- identity functions of src/proxy/mitmproxy.cpp.
use smithproxy.Base.{ℕ, Bool, List, Option, none, some, Text, ◌≡◌, refl, if-keeps}
use smithproxy.Base.Int.{ℤ}
use smithproxy.Base.Outcome.{value, Ends, Ends->>=, Ends-any, Ends-value}
use smithproxy.Policy.Rule.{Rule}
use smithproxy.Session.{AuthProfile}
use smithproxy.Auth.{IdentityInfo, touch, i_timeout, unsigned_of}
use smithproxy.Auth.Tables.{
  TableEnv, Table, find, insert, shm_table_refresh, count_found, inc_counters, counted, ip_remove,
  timeout_check,
}
use smithproxy.Auth.Resolve.{
  Login, update_found, update_auth_map, take_identity, resolve_new, resolve_known, resolve_table,
  apply_id_policies,
}
use smithproxy.Auth.Kept.{
  IsKept, Loads, Tells, Resolves, insert-IsKept, ip_remove-IsKept, timeout_check-IsKept,
  shm_table_refresh-IsKept, same_names,
}

module _ (env : TableEnv) where
  open env use {shm}

  inc_counters-IsKept :
      (host : Text) (rx tx : ℕ) (t : Table env)
      → IsKept env t.ip_map
      → Tells env (inc_counters env host rx tx t)
  unfolding inc_counters count_found counted
  inc_counters-IsKept host rx tx t h = counted_found (find host t.ip_map) refl
    where
      counted_found :
          (o : Option IdentityInfo)
          → find host t.ip_map ≡ o
          → Tells env (count_found env host rx tx o t)
      counted_found none e = h
      counted_found (some id) e = insert-IsKept env host (counted env rx tx id) t.ip_map h (
          same_names env host id (counted env rx tx id) refl refl refl refl refl
            (h.sound host id e))

  module _ {Cidr : Type 0} (rules : List (Rule Cidr)) (profiles : List AuthProfile)
      (guests : Text) where
    update_auth_map-IsKept :
        (port : Option ℕ) (now : ℕ) (policy : ℤ) (host : Text) (t : Table env)
        → IsKept env t.ip_map
        → Tells env (update_auth_map rules profiles port env guests now policy host t)
    unfolding update_auth_map update_found touch
    update_auth_map-IsKept port now policy host t h = found (find host t.ip_map) refl
      where
        found :
            (o : Option IdentityInfo)
            → find host t.ip_map ≡ o
            → Tells env (update_found rules profiles port env guests now policy host o t)
        found none e = h
        found (some id) e =
            if-keeps (Tells env) (i_timeout now seen) _ _
              (ip_remove-IsKept env host (record t { ip_map = insert host seen t.ip_map })
                (insert-IsKept env host seen t.ip_map h
                  (same_names env host id seen refl refl refl refl refl (h.sound host id e))))
              (insert-IsKept env host (touch now seen) t.ip_map h (
                same_names env host id (touch now seen) refl refl refl refl refl
                  (h.sound host id e)))
          where
            seen : IdentityInfo
            seen = record id { last_seen_policy = unsigned_of policy }

    take_identity-IsKept :
        (port : Option ℕ) (now : ℕ) (host : Text) (o : Option (List ℕ)) (px : Login) (t : Table env)
        → IsKept env t.ip_map
        → Ends (Resolves env) (take_identity rules profiles port env guests now host o px t)
    unfolding take_identity
    take_identity-IsKept port now host none px t h = h
    take_identity-IsKept port now host (some row) px t h =
        Ends->>= (λ px. Unit {0}) (Resolves env) (apply_id_policies rules profiles port _ _) _
          (Ends-any (apply_id_policies rules profiles port _ _))
          λ px' u. update_auth_map-IsKept port now px.matched_policy host t h

    resolve_new-IsKept :
        (port : Option ℕ) (now : ℕ) (guest : Bool) (host : Text) (px : Login) (t : Table env)
        → IsKept env t.ip_map
        → Ends (Resolves env) (resolve_new rules profiles port env guests now guest host px t)
    unfolding resolve_new
    resolve_new-IsKept port now guest host px t h =
        Ends->>= (Loads env) (Resolves env) (shm_table_refresh env now t) _
          (shm_table_refresh-IsKept env now t h)
          λ r k. take_identity-IsKept port now host _ px r.0 k

    resolve_table-IsKept :
        (port : Option ℕ) (now : ℕ) (guest : Bool) (host : Text) (px : Login) (t : Table env)
        → IsKept env t.ip_map
        → Ends (Resolves env) (resolve_table rules profiles port env guests now guest host px t)
    unfolding resolve_table resolve_known
    resolve_table-IsKept port now guest host px t h =
        if-keeps (Ends (Resolves env)) px.identity_resolved _ _
          (if-keeps (Ends (Resolves env))
            (update_auth_map rules profiles port env guests now px.matched_policy host t).1 _ _
            (update_auth_map-IsKept port now px.matched_policy host t h)
            (resolve_new-IsKept port now guest host _ _
              (update_auth_map-IsKept port now px.matched_policy host t h)))
          (resolve_new-IsKept port now guest host px t h)

    -- What happens to a table: calls that return, and whatever other processes do with the shared
    -- one.
    pub data Step : Table env → Table env → Type 0 where
      refreshes :
          {t u : Table env} (now : ℕ) (l : ℤ)
          → shm_table_refresh env now t ≡ value (u, l)
          → Step t u
      removes : (t : Table env) (host : Text) → Step t (ip_remove env host t)
      checks : (t : Table env) (now : ℕ) → Step t (timeout_check env now t)
      counts : (t : Table env) (host : Text) (rx tx : ℕ) → Step t (inc_counters env host rx tx t).0
      resolves :
          {t u : Table env} (port : Option ℕ) (now : ℕ) (guest : Bool) (host : Text)
          (px px' : Login) (valid : Bool)
          → resolve_table rules profiles port env guests now guest host px t ≡ value (u, px', valid)
          → Step t u
      shares : (t : Table env) (s : shm.State) → Step t (record t { shared = s })

    pub data Reach (t : Table env) : Table env → Type 0 where
      here : Reach t t
      next : {u v : Table env} → Reach t u → Step u v → Reach t v

    Step-IsKept : {t u : Table env} → Step t u → IsKept env t.ip_map → IsKept env u.ip_map
    Step-IsKept (refreshes {t} now l e) h =
        Ends-value (Loads env) (shm_table_refresh env now t) (shm_table_refresh-IsKept env now t h)
          e
    Step-IsKept (removes t host) h = ip_remove-IsKept env host t h
    Step-IsKept (checks t now) h = timeout_check-IsKept env now t h
    Step-IsKept (counts t host rx tx) h = inc_counters-IsKept host rx tx t h
    Step-IsKept (resolves {t} port now guest host px px' valid e) h =
        Ends-value (Resolves env) (resolve_table rules profiles port env guests now guest host px t)
          (resolve_table-IsKept port now guest host px t h) e
    Step-IsKept (shares t s) h = h

    -- Whatever happens to a table, in whatever order, from a table that has each address once with
    -- a sound identity (the empty one, say): it has each address once, and what it keeps of an
    -- address was read from one row of that address: its user, its groups and their split.
    pub Reach-IsKept : {t u : Table env} → IsKept env t.ip_map → Reach t u → IsKept env u.ip_map
    Reach-IsKept h here = h
    Reach-IsKept h (next r s) = Step-IsKept s (Reach-IsKept h r)
