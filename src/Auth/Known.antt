-- ===== src/Auth/Known.antt =====
-- resolve_identity of src/proxy/mitmproxy.cpp on a proxy without an identity.
use mathlib.Core.Path.{subst}
use mathlib.Core.Option.{some-injective}
use smithproxy.Dns.Response.{ascii}
use smithproxy.Base.{
  ℕ, ◌+◌, ◌-◌, ltb, Bool, true, false, List, Option, none, some, Text, same_text_refl, ◌≡◌, refl,
  sym, ap, ◌∙◌, if◌then◌else◌, if_no, if_yes, arith, [], ◌∷◌, All, Bool-cases, inl, inr,
}
use smithproxy.Base.Int.{ℤ}
use smithproxy.Base.Outcome.{Outcome, value, ◌>>=◌, Ends-value}
use smithproxy.Policy.Rule.{Rule}
use smithproxy.Policy.Table.{lookup_policy}
use smithproxy.Session.{SubAuth, AuthProfile}
use smithproxy.Session.Identity.{has_text}
use smithproxy.Auth.{IdentityInfo, low32, logon_info, touch, i_timeout, unsigned_of}
use smithproxy.Auth.Tables.{TableEnv, Table, find, insert, shm_table_refresh, get_groups, ip_remove}
use smithproxy.Auth.Resolve.{
  Login, first_sub, sub_auths, follows_null, profile_of, checked_policy, find_auth_subprofile,
  with_sub, apply_id_policies, update_found, update_auth_map, logon_of, with_identity,
  take_identity, resolve_new, resolve_table,
}
use smithproxy.Auth.Lookup.{find-insert_self, insert-IsMap}
use smithproxy.Auth.Idle.{expired, ip_remove-find}
use smithproxy.Auth.Kept.{IsKept, Loads, shm_table_refresh-IsKept}

abbrev pub is_there : Option IdentityInfo → Bool
is_there none = false
is_there (some id) = true

-- The row that a proxy has of an identity, or else what it had.
abbrev pub row_of : Option (List ℕ) → Option IdentityInfo → Option (List ℕ)
row_of old none = old
row_of old (some id) = some id.last_logon_info

-- An identity that is seen now, under a policy.
abbrev pub seen_now : ℕ → ℤ → Option IdentityInfo → Option IdentityInfo
seen_now now policy none = none
seen_now now policy (some id) =
    some (record id { last_seen_at = low32 now; last_seen_policy = unsigned_of policy })

-- What is true of every sub-policy is true of the one that is chosen.
first_sub-All :
    (P : SubAuth → Type 0) (subs : List SubAuth) (groups : List Text) (sub : SubAuth)
    → first_sub subs groups ≡ some sub
    → All P subs
    → P sub
unfolding first_sub
first_sub-All P [] groups sub e h = absurd (cc)
first_sub-All P (x ∷ subs) groups sub e h = elim (Bool-cases (has_text x.element_name groups)) [
  | inl n ↦ subst P (some-injective x sub (sym (if_yes _ _ _ n) ∙ e)) h.0
  | inr n ↦ first_sub-All P subs groups sub (sym (if_no _ _ _ n) ∙ e) h.1
]

module _ {Cidr : Type 0} (rules : List (Rule Cidr)) (profiles : List AuthProfile)
    (port : Option ℕ) where
  -- No sub-policy of the rule makes apply_id_policies follow a null pointer: one with a DNS profile
  -- that applies to the context's port has a TLS profile, too.
  abbrev pub Harmless : Rule Cidr → Type 0
  Harmless rule =
      All (λ sub. follows_null port sub ≡ false)
        (sub_auths (profile_of rules profiles rule.profile_auth))

  -- The identity stays when a sub-policy is chosen, and the choice throws nothing.
  apply_id_policies-keeps :
      (groups : Option (List Text)) (px : Login) (rule : Rule Cidr)
      → lookup_policy rules px.matched_policy ≡ some rule
      → Harmless rule
      → (px' : Login) × (apply_id_policies rules profiles port groups px ≡ value px')
        × (px'.identity_resolved ≡ px.identity_resolved)
        × (px'.identity ≡ px.identity)
  unfolding apply_id_policies find_auth_subprofile checked_policy with_sub
  apply_id_policies-keeps none px rule h safe = (px, refl, refl, refl)
  apply_id_policies-keeps (some groups) px rule h safe = rw h (chosen (first_sub subs groups) refl)
    where
      subs : List SubAuth
      subs = sub_auths (profile_of rules profiles rule.profile_auth)

      chosen :
          (o : Option SubAuth)
          → first_sub subs groups ≡ o
          → (px' : Login) × ((value o >>= λ sub. with_sub rules profiles port px sub) ≡ value px')
            × (px'.identity_resolved ≡ px.identity_resolved)
            × (px'.identity ≡ px.identity)
      chosen none e = (px, refl, refl, refl)
      chosen (some sub) e = (
        record px { sub_profile = some sub.element_name },
        if_no _ _ _ (first_sub-All (λ sub. follows_null port sub ≡ false) subs groups sub e safe),
        refl,
        refl,
      )

  module _ (env : TableEnv) (guests : Text) where
    -- The result of resolving, where `o` is the identity in time that the table has after its
    -- refresh, if it has one.
    abbrev pub Answer :
        ℕ → Text → Login → Option IdentityInfo → Outcome (Table env × Login × Bool) → Type 0
    Answer now host px o r =
        (u : Table env) × (px' : Login) × (r ≡ value (u, px', is_there o))
        × (px'.identity_resolved ≡ is_there o)
        × (px'.identity ≡ row_of px.identity o)
        × (find host u.ip_map ≡ seen_now now px.matched_policy o)

    taken :
        (now : ℕ) (host : Text) (row : List ℕ) (px : Login) (rule : Rule Cidr) (t u : Table env)
        (valid : Bool)
        → lookup_policy rules px.matched_policy ≡ some rule
        → Harmless rule
        → update_auth_map rules profiles port env guests now px.matched_policy host t ≡ (u, valid)
        → (px' : Login) × (take_identity rules profiles port env guests now host (some row) px t
            ≡ value (u, px', valid))
          × (px'.identity_resolved ≡ valid)
          × (px'.identity ≡ (if valid then some row else px.identity))
    unfolding take_identity with_identity
    taken now host row px rule t u true h safe e =
        let (px', a, b, c) =
          apply_id_policies-keeps (get_groups env host u)
            (record px { identity_resolved = true; identity = some row }) rule h safe in
        (px', rw (e, a) refl, b, c)
    taken now host row px rule t u false h safe e =
        let (px', a, b, c) =
          apply_id_policies-keeps (get_groups env host u) (record px { identity_resolved = false })
            rule h safe in
        (px', rw (e, a) refl, b, c)

    absent :
        (now : ℕ) (guest : Bool) (host : Text) (px : Login) (rule : Rule Cidr) (t : Table env)
        → lookup_policy rules px.matched_policy ≡ some rule
        → Harmless rule
        → px.identity_resolved ≡ false
        → find host t.ip_map ≡ none
        → Answer now host px none (
            take_identity rules profiles port env guests now host
              (logon_of rules profiles port env guests guest host none)
              px
              t)
    unfolding logon_of take_identity update_auth_map update_found
    absent now true host px rule t h safe p e =
        let (px', a, b, c) =
          taken now host (logon_info env.inet env.address_size host (ascii "guest") guests) px rule
            t t false h safe (rw e refl) in
        (t, px', a, b, c, e)
    absent now false host px rule t h safe p e = (t, px, refl, p, refl, e)

    present :
        (now : ℕ) (host : Text) (px : Login) (rule : Rule Cidr) (t : Table env) (id : IdentityInfo)
        → lookup_policy rules px.matched_policy ≡ some rule
        → Harmless rule
        → IsKept env t.ip_map
        → find host t.ip_map ≡ some id
        → Answer now host px
            (expired now (some id))
            (take_identity rules profiles port env guests now host (some id.last_logon_info) px t)
    unfolding update_auth_map update_found i_timeout touch
    present now host px rule t id h safe k e =
        timed (ltb id.idle_timeout (now - id.last_seen_at)) refl
          (ltb (id.last_seen_at + id.idle_timeout) now)
          (sym (moved id.last_seen_at id.idle_timeout now)) refl
      where
        moved : (a b n : ℕ) → ltb b (n - a) ≡ ltb (a + b) n
        moved a b n = ground arith

        seen : IdentityInfo
        seen = record id { last_seen_policy = unsigned_of px.matched_policy }

        idle : Table env
        idle = ip_remove env host (record t { ip_map = insert host seen t.ip_map })

        renewed : Table env
        renewed = record t { ip_map = insert host (touch now seen) t.ip_map }

        removed : find host idle.ip_map ≡ none
        removed =
            ip_remove-find env host host (record t { ip_map = insert host seen t.ip_map })
              (insert-IsMap host seen t.ip_map k.distinct)
            ∙ rw (same_text_refl host) refl

        updated :
            (b : Bool)
            → ltb id.idle_timeout (now - id.last_seen_at) ≡ b
            → update_auth_map rules profiles port env guests now px.matched_policy host t
              ≡ (if b then (idle, false) else (renewed, true))
        updated b l = rw e (ap (λ (c : Bool). if c then (idle, false) else (renewed, true)) l)

        timed :
            (b : Bool)
            → ltb id.idle_timeout (now - id.last_seen_at) ≡ b
            → (c : Bool) → c ≡ ltb id.idle_timeout (now - id.last_seen_at)
            → ltb (id.last_seen_at + id.idle_timeout) now ≡ c
            → Answer now host px (if c then none else some id) (
                take_identity rules profiles port env guests now host
                  (some id.last_logon_info)
                  px
                  t)
        timed true l true q r =
            let (px', x, y, z) =
              taken now host id.last_logon_info px rule t idle false h safe (updated true l) in
            (idle, px', x, y, z, removed)
        timed false l false q r =
            let (px', x, y, z) =
              taken now host id.last_logon_info px rule t renewed true h safe (updated false l) in
            (renewed, px', x, y, z, find-insert_self host (touch now seen) t.ip_map)
        timed true l false q r = absurd (cc)
        timed false l true q r = absurd (cc)

    -- A proxy without an identity whose policy is a rule, a table that has each address once with a
    -- sound identity (IsKept), and a rule of whose sub-policies none makes apply_id_policies follow
    -- a null pointer (Harmless): when the refresh of the table returns, resolve_identity returns,
    -- whether a guest may be taken or not. It succeeds exactly if the table then has an identity of
    -- the host that was last seen no longer ago than its idle timeout. In that case the proxy has
    -- its row, and the table notes the time and the policy; else the proxy has the row that it had,
    -- and the table has no identity of the host any more.
    pub resolve_table-known :
        (now : ℕ) (guest : Bool) (host : Text) (px : Login) (rule : Rule Cidr) (t t' : Table env)
        (l : ℤ)
        → IsKept env t.ip_map
        → px.identity_resolved ≡ false
        → lookup_policy rules px.matched_policy ≡ some rule
        → Harmless rule
        → shm_table_refresh env now t ≡ value (t', l)
        → Answer now host px
            (expired now (find host t'.ip_map))
            (resolve_table rules profiles port env guests now guest host px t)
    unfolding resolve_table resolve_new logon_of
    resolve_table-known now guest host px rule t t' l k p h safe e =
        subst (Answer now host px (expired now (find host t'.ip_map)))
          (sym (if_no px.identity_resolved _ _ p ∙ refreshed)) (answered (find host t'.ip_map) refl)
      where
        refreshed :
            resolve_new rules profiles port env guests now guest host px t
            ≡ take_identity rules profiles port env guests now host
                (logon_of rules profiles port env guests guest host (find host t'.ip_map))
                px
                t'
        refreshed = rw e refl

        answered :
            (o : Option IdentityInfo)
            → find host t'.ip_map ≡ o
            → Answer now host px (expired now o) (
                take_identity rules profiles port env guests now host
                  (logon_of rules profiles port env guests guest host o)
                  px
                  t')
        answered none f = absent now guest host px rule t' h safe p f
        answered (some id) f =
            present now host px rule t' id h safe
              (Ends-value (Loads env) (shm_table_refresh env now t)
                (shm_table_refresh-IsKept env now t k) e)
              f
