-- ===== src/Auth/Kept.antt =====
-- The tables of identities keep their invariant: src/policy/authfactory4.cpp, authfactory6.cpp and
-- the identity functions of src/proxy/mitmproxy.cpp.
use mathlib.Core.Path.{subst}
use mathlib.Core.Option.{some-injective}
use smithproxy.Session.Identity.{has_text}
use smithproxy.Base.{
  ℕ, Bool, true, false, List, [], ◌∷◌, none, some, Text, same_text, same_text_iff, ◌≡◌, refl, sym,
  ap, ◌∙◌, if◌then◌else◌, if-keeps, Bool-cases, inl, inr,
}
use smithproxy.Base.Int.{ℤ, pos, eqb_ℤ, ltb_ℤ}
use smithproxy.Base.Outcome.{value, Ends, Ends->>=, Ends-self}
use smithproxy.Auth.{IdentityInfo, groups_loop, row_ip, row_username, row_groups, update}
use smithproxy.Auth.Tables.{
  IpMap, TableEnv, Table, find, insert, start_identity, with_row, refresh_row, refresh_rows,
  flushed, loaded_rows, acquired, shm_table_refresh, ip_remove, timeout_check, timed_out,
  remove_each,
}
use smithproxy.Auth.Resolve.{Login}
use smithproxy.Auth.Lookup.{IsMap, find-insert, insert-IsMap}
use smithproxy.Auth.Idle.{ip_remove-find, ip_remove-IsMap, remove_each-IsMap, remove_each-find}

module _ (env : TableEnv) where
  open env use {inet, address_size, shm}

  -- What is kept of an address was read from one row, which has that address.
  pub record IsSound (host : Text) (id : IdentityInfo) : Type 0 where
    pub ip_is : id.ip ≡ host
    pub row_is : row_ip inet address_size id.last_logon_info ≡ host
    pub user_is : row_username inet address_size id.last_logon_info ≡ value id.username
    pub groups_are : row_groups inet address_size id.last_logon_info ≡ value id.groups
    pub split_are : id.groups_vec ≡ groups_loop [] id.groups

  -- Each address once, and a sound identity for each.
  pub record IsKept (m : IpMap) : Type 0 where
    pub distinct : IsMap m
    pub sound : (host : Text) (id : IdentityInfo) → find host m ≡ some id → IsSound host id

  insert-IsSound :
      (k host : Text) (v id : IdentityInfo) (m : IpMap)
      → IsKept m
      → IsSound k v
      → find host (insert k v m) ≡ some id
      → IsSound host id
  insert-IsSound k host v id m h s e = elim (Bool-cases (same_text k host)) [
    | inl f ↦
        subst (λ (h : Text). IsSound h id) ((same_text_iff k host).0 f)
          (subst (IsSound k) (some-injective v id (sym (find-insert k host v m ∙ rw f refl) ∙ e)) s)
    | inr f ↦ h.sound host id (sym (find-insert k host v m ∙ rw f refl) ∙ e)
  ]

  pub insert-IsKept :
      (k : Text) (v : IdentityInfo) (m : IpMap) → IsKept m → IsSound k v → IsKept (insert k v m)
  insert-IsKept k v m h s = record {
    distinct = insert-IsMap k v m h.distinct;
    sound = λ host id e. insert-IsSound k host v id m h s e;
  }

  -- A map in which every identity was there before.
  pub fewer-IsKept :
      (m n : IpMap)
      → IsKept m
      → IsMap n
      → (b : Text → Bool) → ((host : Text) → find host n ≡ (if b host then none else find host m))
      → IsKept n
  fewer-IsKept m n h d b e = record {
    distinct = d;
    sound = λ host id f. elim (Bool-cases (b host)) [
      | inl g ↦ not_none (sym (lacks host g) ∙ f)
      | inr g ↦ h.sound host id (sym (has host g) ∙ f)
    ];
  }
    where
      lacks : (host : Text) → b host ≡ true → find host n ≡ none
      lacks host g = e host ∙ rw g refl

      has : (host : Text) → b host ≡ false → find host n ≡ find host m
      has host g = e host ∙ rw g refl

      not_none : {A : Type 0} {x : IdentityInfo} → none ≡ some x → A
      not_none q = absurd (cc)

  pub ip_remove-IsKept :
      (k : Text) (t : Table env) → IsKept t.ip_map → IsKept (ip_remove env k t).ip_map
  ip_remove-IsKept k t h =
      fewer-IsKept t.ip_map (ip_remove env k t).ip_map h (ip_remove-IsMap env k t h.distinct)
        (λ host. same_text k host) λ host. ip_remove-find env k host t h.distinct

  pub timeout_check-IsKept :
      (now : ℕ) (t : Table env) → IsKept t.ip_map → IsKept (timeout_check env now t).ip_map
  unfolding timeout_check
  timeout_check-IsKept now t h =
      fewer-IsKept t.ip_map (remove_each env (timed_out now t.ip_map []) t).ip_map h
        (remove_each-IsMap env (timed_out now t.ip_map []) t h.distinct)
        (λ host. has_text host (timed_out now t.ip_map []))
        λ host. remove_each-find env (timed_out now t.ip_map []) host t h.distinct

  with_row-IsSound :
      (rt : List ℕ) (id : IdentityInfo)
      → Ends
          (IsSound (row_ip inet address_size rt))
          (with_row env rt (row_ip inet address_size rt) id)
  unfolding with_row update
  with_row-IsSound rt id =
      Ends->>= (λ u. row_username inet address_size rt ≡ value u) (IsSound _)
        (row_username inet address_size rt) _ (Ends-self _)
        λ u e.
          Ends->>= (λ g. row_groups inet address_size rt ≡ value g) (IsSound _)
            (row_groups inet address_size rt) _ (Ends-self _)
            λ g f. record {
              ip_is = refl;
              row_is = refl;
              user_is = e;
              groups_are = f;
              split_are = refl;
            }

  refresh_rows-IsKept :
      (now : ℕ) (rows : List (List ℕ)) (m : IpMap)
      → IsKept m
      → Ends IsKept (refresh_rows env now rows m)
  unfolding refresh_rows refresh_row
  refresh_rows-IsKept now [] m h = h
  refresh_rows-IsKept now (rt ∷ rows) m h =
      Ends->>= IsKept IsKept (refresh_row env now rt m) _
        (Ends->>= (IsSound (row_ip inet address_size rt)) IsKept
          (with_row env rt (row_ip inet address_size rt)
            (start_identity env now (find (row_ip inet address_size rt) m)))
          _ (with_row-IsSound rt _) λ id s. insert-IsKept _ id m h s)
        λ m' h'. refresh_rows-IsKept now rows m' h'

  -- Results whose table keeps the invariant.
  abbrev pub Loads : Table env × ℤ → Type 0
  Loads r = IsKept r.0.ip_map

  abbrev pub Tells : Table env × Bool → Type 0
  Tells r = IsKept r.0.ip_map

  abbrev pub Resolves : Table env × Login × Bool → Type 0
  Resolves r = IsKept r.0.ip_map

  flushed-IsKept : (l : ℤ) (m : IpMap) → IsKept m → IsKept (flushed env l m)
  unfolding flushed find
  flushed-IsKept l m h =
      if-keeps IsKept (eqb_ℤ l (pos 0)) [] m
        (record { distinct = tt; sound = λ host id e. absurd (cc) }) h

  loaded_rows-IsKept :
      (now : ℕ) (r : ℤ × shm.State) (m : IpMap) → IsKept m → Ends Loads (loaded_rows env now r m)
  unfolding loaded_rows
  loaded_rows-IsKept now (l, s) m h = if-keeps (Ends Loads) (ltb_ℤ l (pos 0)) _ _ h (
      Ends->>= IsKept Loads (refresh_rows env now (shm.entries (shm.release s)) (flushed env l m)) _
        (refresh_rows-IsKept now (shm.entries (shm.release s)) (flushed env l m)
          (flushed-IsKept l m h))
        λ m' k. k)

  acquired-IsKept :
      (now : ℕ) (r : ℤ × shm.State) (m : IpMap) → IsKept m → Ends Loads (acquired env now r m)
  unfolding acquired
  acquired-IsKept now (rc, s) m h =
      if-keeps (Ends Loads) (eqb_ℤ rc (pos 0)) _ _ (loaded_rows-IsKept now (shm.load s) m h) h

  pub shm_table_refresh-IsKept :
      (now : ℕ) (t : Table env) → IsKept t.ip_map → Ends Loads (shm_table_refresh env now t)
  unfolding shm_table_refresh
  shm_table_refresh-IsKept now t h =
      acquired-IsKept now (shm.acquire (shm.attach t.shared)) t.ip_map h

  -- Changes that touch no name.
  pub same_names :
      (host : Text) (v w : IdentityInfo)
      → w.ip ≡ v.ip
      → w.last_logon_info ≡ v.last_logon_info
      → w.username ≡ v.username
      → w.groups ≡ v.groups
      → w.groups_vec ≡ v.groups_vec
      → IsSound host v
      → IsSound host w
  same_names host v w a b c d e s = record {
    ip_is = a ∙ s.ip_is;
    row_is = ap (row_ip inet address_size) b ∙ s.row_is;
    user_is = ap (row_username inet address_size) b ∙ s.user_is ∙ ap value (sym c);
    groups_are = ap (row_groups inet address_size) b ∙ s.groups_are ∙ ap value (sym d);
    split_are = e ∙ s.split_are ∙ ap (groups_loop []) (sym d);
  }
