-- ===== src/Auth/Idle.antt =====
-- timeout_check of src/policy/authfactory4.cpp and authfactory6.cpp.
use smithproxy.Base.{
  ℕ, ◌+◌, ◌-◌, ltb, arith, Bool, true, false, List, [], ◌∷◌, Option, none, some, Text, same_text,
  same_text_iff, ◌≡◌, refl, sym, ap, ◌∙◌, if◌then◌else◌, if_same, Bool-cases, inl, inr,
}
use smithproxy.Session.Identity.{has_text}
use smithproxy.Auth.{IdentityInfo, i_timeout}
use smithproxy.Auth.Tables.{
  IpMap, TableEnv, Table, find, text_lt, set_insert, timed_out, remove_found, ip_remove,
  remove_each, timeout_check,
}
use smithproxy.Auth.Lookup.{IsMap, find-erase, erase-IsMap, if_twice, same_text-eq}

has_text-set_insert :
    (j x : Text) (ys : List Text)
    → has_text j (set_insert x ys) ≡ (if same_text x j then true else has_text j ys)
unfolding has_text set_insert
has_text-set_insert j x [] = refl
has_text-set_insert j x (y ∷ ys) = elim (Bool-cases (same_text x y)) [
  | inl e ↦ rw (e, same_text-eq x y j e) (if_twice (same_text y j) true true (has_text j ys))
  | inr e ↦ rw e (further (text_lt x y) (has_text-set_insert j x ys))
]
  where
    both :
        (b c z : Bool)
        → (if b then true else if c then true else z) ≡ (if c then true else if b then true else z)
    both true c z = sym (if_same c true)
    both false c z = refl

    further :
        (b : Bool)
        → has_text j (set_insert x ys) ≡ (if same_text x j then true else has_text j ys)
        → has_text j (if b then x ∷ y ∷ ys else y ∷ set_insert x ys)
          ≡ (if same_text x j then true else if same_text y j then true else has_text j ys)
    further true h = refl
    further false h = rw h (both (same_text y j) (same_text x j) (has_text j ys))

-- An entry whose identity has timed out.
unfoldable pub is_idle : ℕ → Option IdentityInfo → Bool
is_idle now none = false
is_idle now (some id) = i_timeout now id

has_text-timed_out :
    (now : ℕ) (j : Text) (m : IpMap) (s : List Text)
    → IsMap m
    → has_text j (timed_out now m s) ≡ (if is_idle now (find j m) then true else has_text j s)
unfolding timed_out find is_idle
has_text-timed_out now j [] s h = refl
has_text-timed_out now j ((k, id) ∷ m) s h =
    has_text-timed_out now j m (if i_timeout now id then set_insert k s else s) h.1
    ∙ entry (i_timeout now id) refl
  where
    entry :
        (t : Bool)
        → i_timeout now id ≡ t
        → (if is_idle now (find j m) then true else has_text j (if t then set_insert k s else s))
          ≡ (if is_idle now (if same_text k j then some id else find j m)
              then true
              else has_text j s)
    entry true e = elim (Bool-cases (same_text k j)) [
      | inl f ↦ rw (has_text-set_insert j k s, f, e) (if_same (is_idle now (find j m)) true)
      | inr f ↦ rw (has_text-set_insert j k s, f) refl
    ]
    entry false e = elim (Bool-cases (same_text k j)) [
      | inl f ↦ rw (f, e, ap (λ (t : Text). find t m) (sym ((same_text_iff k j).0 f)) ∙ h.0) refl
      | inr f ↦ rw f refl
    ]

-- What is left of an identity: nothing after its idle timeout.
abbrev pub expired : ℕ → Option IdentityInfo → Option IdentityInfo
expired now none = none
expired now (some id) = if ltb (id.last_seen_at + id.idle_timeout) now then none else some id

idle-expired :
    (now : ℕ) (o : Option IdentityInfo) → (if is_idle now o then none else o) ≡ expired now o
unfolding is_idle i_timeout
idle-expired now none = refl
idle-expired now (some id) =
    ap (λ (b : Bool). if b then none else some id) (moved id.last_seen_at id.idle_timeout now)
  where
    moved : (a b n : ℕ) → ltb b (n - a) ≡ ltb (a + b) n
    moved a b n = ground arith

module _ (env : TableEnv) where
  remove_found-find :
      (k j : Text) (o : Option IdentityInfo) (t : Table env)
      → find k t.ip_map ≡ o
      → IsMap t.ip_map
      → find j (remove_found env k o t).ip_map ≡ (if same_text k j then none else find j t.ip_map)
  unfolding remove_found
  remove_found-find k j none t e h = elim (Bool-cases (same_text k j)) [
    | inl f ↦ rw f (ap (λ (x : Text). find x t.ip_map) (sym ((same_text_iff k j).0 f)) ∙ e)
    | inr f ↦ rw f refl
  ]
  remove_found-find k j (some id) t e h = find-erase k j t.ip_map h

  pub ip_remove-find :
      (k j : Text) (t : Table env)
      → IsMap t.ip_map
      → find j (ip_remove env k t).ip_map ≡ (if same_text k j then none else find j t.ip_map)
  unfolding ip_remove
  ip_remove-find k j t h = remove_found-find k j (find k t.ip_map) t refl h

  remove_found-IsMap :
      (k : Text) (o : Option IdentityInfo) (t : Table env)
      → IsMap t.ip_map
      → IsMap (remove_found env k o t).ip_map
  unfolding remove_found
  remove_found-IsMap k none t h = h
  remove_found-IsMap k (some id) t h = erase-IsMap k t.ip_map h

  pub ip_remove-IsMap :
      (k : Text) (t : Table env) → IsMap t.ip_map → IsMap (ip_remove env k t).ip_map
  unfolding ip_remove
  ip_remove-IsMap k t h = remove_found-IsMap k (find k t.ip_map) t h

  pub remove_each-IsMap :
      (ks : List Text) (t : Table env) → IsMap t.ip_map → IsMap (remove_each env ks t).ip_map
  unfolding remove_each
  remove_each-IsMap [] t h = h
  remove_each-IsMap (k ∷ ks) t h = remove_each-IsMap ks (ip_remove env k t) (ip_remove-IsMap k t h)

  pub remove_each-find :
      (ks : List Text) (j : Text) (t : Table env)
      → IsMap t.ip_map
      → find j (remove_each env ks t).ip_map ≡ (if has_text j ks then none else find j t.ip_map)
  unfolding remove_each has_text
  remove_each-find [] j t h = refl
  remove_each-find (k ∷ ks) j t h =
      remove_each-find ks j (ip_remove env k t) (ip_remove-IsMap k t h)
      ∙ rw (ip_remove-find k j t h) (or_none (has_text j ks) (same_text k j) (find j t.ip_map))
    where
      or_none :
          (b c : Bool) (z : Option IdentityInfo)
          → (if b then none else if c then none else z)
            ≡ (if (if c then true else b) then none else z)
      or_none true true z = refl
      or_none true false z = refl
      or_none false true z = refl
      or_none false false z = refl

  timeout_check-find :
      (now : ℕ) (j : Text) (t : Table env)
      → IsMap t.ip_map
      → find j (timeout_check env now t).ip_map
        ≡ (if is_idle now (find j t.ip_map) then none else find j t.ip_map)
  unfolding timeout_check has_text
  timeout_check-find now j t h =
      remove_each-find (timed_out now t.ip_map []) j t h
      ∙ ap (λ (b : Bool). if b then none else find j t.ip_map)
          (has_text-timed_out now j t.ip_map [] h ∙ or_false (is_idle now (find j t.ip_map)))
    where
      or_false : (b : Bool) → (if b then true else false) ≡ b
      or_false true = refl
      or_false false = refl

  -- In a table that has each address once, a check of the timeouts removes the identities that
  -- were last seen more than their idle timeout ago, keeps every other one as it is, and adds none.
  pub timeout_check-expired :
      (now : ℕ) (host : Text) (t : Table env)
      → IsMap t.ip_map
      → find host (timeout_check env now t).ip_map ≡ expired now (find host t.ip_map)
  timeout_check-expired now host t h =
      timeout_check-find now host t h ∙ idle-expired now (find host t.ip_map)
