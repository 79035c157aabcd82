-- ===== src/Auth/Resolve.antt =====
-- src/proxy/mitmproxy.cpp: what a MitmProxy does with the tables of identities. The profiles that
-- apply_id_policies sets on a context are not modelled, but for the choice of the sub-policy that
-- they are taken from and the null pointers that are followed in the DNS profile's branch.
use smithproxy.Base.{
  ℕ, ◌&&◌, not, Bool, true, false, List, [], ◌∷◌, Option, none, some, Text, get_elem?, ◌==◌, ◌||◌,
  if◌then◌else◌,
}
use smithproxy.Base.Int.{ℤ}
use smithproxy.Base.Outcome.{Outcome, value, throws, undefined, out_of_range, ◌>>=◌}
use smithproxy.Dns.Response.{ascii}
use smithproxy.Policy.Rule.{Rule}
use smithproxy.Policy.Table.{lookup_policy}
use smithproxy.Session.{SubAuth, AuthProfile}
use smithproxy.Session.Identity.{has_text}
use smithproxy.Session.Route.{family_v4, family_v6}
use smithproxy.Auth.{IdentityInfo, unsigned_of, touch, i_timeout, logon_info}
use smithproxy.Auth.Tables.{TableEnv, Table, find, insert, shm_table_refresh, get_groups, ip_remove}

-- The configuration, and what the tables of both families are given.
pub record AuthEnv : Type 1 where
  pub v4 : TableEnv
  pub v6 : TableEnv
  pub Cidr : Type 0
  pub rules : List (Rule Cidr)
  pub auth_profiles : List AuthProfile

-- A context as the tables see it: its host, and the family and the destination port of its com() if
-- it has one.
pub record Client : Type 0 where
  pub host : Text
  pub l3_proto : Option ℕ
  pub nonlocal_dst_port : Option ℕ

-- What a MitmProxy keeps of the identity: the row that was found, and the name of the sub-policy
-- whose profiles were set last.
pub record Login : Type 0 where
  pub identity_resolved : Bool
  pub identity : Option (List ℕ)
  pub matched_policy : ℤ
  pub sub_profile : Option Text

pub data Family : Type 0 where
  ip4 ip6 other : Family

unfoldable pub family_number : ℕ → Family
family_number af =
    if (af == family_v4) || (af == 0) then ip4 else if af == family_v6 then ip6 else other

unfoldable pub family_of : Option ℕ → Family
family_of none = ip4
family_of (some af) = family_number af

-- The loops over sub-policies and groups, up to the first equal pair.
unfoldable pub first_sub : List SubAuth → List Text → Option SubAuth
first_sub [] groups = none
first_sub (sub ∷ subs) groups =
    if has_text sub.element_name groups then some sub else first_sub subs groups

unfoldable pub sub_auths : Option AuthProfile → List SubAuth
sub_auths none = []
sub_auths (some a) = a.sub_policies

-- dns_prefilter dereferences com(); where the DNS profile applies, a log line follows the pointer to
-- the TLS profile.
unfoldable pub follows_null : Option ℕ → SubAuth → Bool
follows_null none sub = sub.profile_alg_dns
follows_null (some port) sub = sub.profile_alg_dns && (port == 53) && not sub.profile_tls

module _ {Cidr : Type 0} (rules : List (Rule Cidr)) (profiles : List AuthProfile) where
  unfoldable pub profile_of : Option ℕ → Option AuthProfile
  profile_of none = none
  profile_of (some n) = get_elem? profiles n

  -- `at` of the policy list.
  unfoldable pub checked_policy : Option (Rule Cidr) → Outcome (Option AuthProfile)
  checked_policy none = throws out_of_range
  checked_policy (some rule) = value (profile_of rule.profile_auth)

  unfoldable pub find_auth_subprofile : List Text → ℤ → Outcome (Option SubAuth)
  find_auth_subprofile groups n = do
    profile ← checked_policy (lookup_policy rules n)
    value (first_sub (sub_auths profile) groups)

  -- The destination port of the context's com().
  module _ (port : Option ℕ) where
    unfoldable pub with_sub : Login → Option SubAuth → Outcome Login
    with_sub px none = value px
    with_sub px (some sub) =
        if follows_null port sub
        then undefined
        else value (record px { sub_profile = some sub.element_name })

    -- The groups are what find_id_groups finds.
    unfoldable pub apply_id_policies : Option (List Text) → Login → Outcome Login
    apply_id_policies none px = value px
    apply_id_policies (some groups) px = do
      sub ← find_auth_subprofile groups px.matched_policy
      with_sub px sub

    -- The table of one family, and the groups of a guest of that family.
    module _ (env : TableEnv) (guest_groups : Text) where
      open env use {inet, address_size}

      unfoldable pub update_found :
          ℕ → ℤ → Text → Option IdentityInfo → Table env → Table env × Bool
      update_found now policy host none t = (t, false)
      update_found now policy host (some id) t =
          let seen = record id { last_seen_policy = unsigned_of policy } in
          if i_timeout now seen
          then (ip_remove env host (record t { ip_map = insert host seen t.ip_map }), false)
          else (record t { ip_map = insert host (touch now seen) t.ip_map }, true)

      unfoldable pub update_auth_map : ℕ → ℤ → Text → Table env → Table env × Bool
      update_auth_map now policy host t = update_found now policy host (find host t.ip_map) t

      -- The row of the identity found, or else of a guest.
      unfoldable pub logon_of : Bool → Text → Option IdentityInfo → Option (List ℕ)
      logon_of insert_guest host none =
          if insert_guest
          then some (logon_info inet address_size host (ascii "guest") guest_groups)
          else none
      logon_of insert_guest host (some id) = some id.last_logon_info

      unfoldable pub with_identity : Bool → List ℕ → Login → Login
      with_identity valid row px =
          if valid
          then record px { identity_resolved = true; identity = some row }
          else record px { identity_resolved = false }

      unfoldable pub take_identity :
          ℕ → Text → Option (List ℕ) → Login → Table env → Outcome (Table env × Login × Bool)
      take_identity now host none px t = value (t, px, false)
      take_identity now host (some row) px t =
          let (t', valid) = update_auth_map now px.matched_policy host t in
          apply_id_policies (get_groups env host t') (with_identity valid row px) >>= λ px'.
          value (t', px', valid)

      unfoldable pub resolve_new :
          ℕ → Bool → Text → Login → Table env → Outcome (Table env × Login × Bool)
      resolve_new now insert_guest host px t = do
        (t', l) ← shm_table_refresh env now t
        take_identity now host (logon_of insert_guest host (find host t'.ip_map)) px t'

      unfoldable pub resolve_known :
          ℕ → Bool → Text → Login → Table env × Bool → Outcome (Table env × Login × Bool)
      resolve_known now insert_guest host px (t, updated) =
          if updated
          then value (t, px, true)
          else resolve_new now insert_guest host (record px { identity_resolved = false }) t

      unfoldable pub resolve_table :
          ℕ → Bool → Text → Login → Table env → Outcome (Table env × Login × Bool)
      resolve_table now insert_guest host px t =
          if px.identity_resolved
          then resolve_known now insert_guest host px (update_auth_map now px.matched_policy host t)
          else resolve_new now insert_guest host px t

module _ (env : AuthEnv) where
  open env use {v4, v6, rules, auth_profiles}

  -- AuthFactory's tables.
  pub record Tables : Type 0 where
    pub table4 : Table v4
    pub table6 : Table v6

  abbrev guests4 : Text
  guests4 = ascii "guest+guests+guests_ipv4"

  abbrev guests6 : Text
  guests6 = ascii "guest+guests+guests_ipv6"

  unfoldable pub resolve_family :
      Family → Option ℕ → ℕ → Bool → Text → Login → Tables → Outcome (Tables × Login × Bool)
  resolve_family ip4 port now insert_guest host px ts = do
    (t, px', valid) ←
        resolve_table rules auth_profiles port v4 guests4 now insert_guest host px ts.table4
    value (record ts { table4 = t }, px', valid)
  resolve_family ip6 port now insert_guest host px ts = do
    (t, px', valid) ←
        resolve_table rules auth_profiles port v6 guests6 now insert_guest host px ts.table6
    value (record ts { table6 = t }, px', valid)
  resolve_family other port now insert_guest host px ts =
      value (ts, record px { identity_resolved = false }, false)

  -- Null for a proxy without a left context.
  unfoldable pub resolve_identity :
      ℕ → Bool → Option Client → Login → Tables → Outcome (Tables × Login × Bool)
  resolve_identity now insert_guest none px ts = value (ts, px, false)
  resolve_identity now insert_guest (some cx) px ts =
      resolve_family (family_of cx.l3_proto) cx.nonlocal_dst_port now insert_guest cx.host px ts
