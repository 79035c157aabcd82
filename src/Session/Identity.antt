-- ===== src/Session/Identity.antt =====
-- authorize_is_bad and authorize of src/proxy/proxymaker.cpp, with the identity checks of the
-- hand-off of src/proxy/socks5/socksproxy.cpp.
use smithproxy.Base.{
  ℕ, Bool, true, false, not, ◌||◌, List, [], ◌∷◌, Option, none, some, Text, same_text, ◌==◌,
  get_elem?, if◌then◌else◌,
}
use smithproxy.Base.Int.{ℤ}
use smithproxy.Policy.Rule.{Rule}
use smithproxy.Policy.Table.{policy_prof_auth}
use smithproxy.Session.{MitmCx, Proxy, SubAuth, AuthProfile, SessionEnv, first_left, first_right}
use smithproxy.Session.Route.{family_v4, family_v6}

unfoldable pub has_text : Text → List Text → Bool
has_text name [] = false
has_text name (x ∷ xs) = if same_text x name then true else has_text name xs

-- The loops over sub-policies and groups, which set bad_auth to false on the first equal pair.
unfoldable pub in_sub_policies : List SubAuth → List Text → Bool
in_sub_policies [] groups = false
in_sub_policies (sub ∷ subs) groups =
    if has_text sub.element_name groups then true else in_sub_policies subs groups

abbrev pub is_http_port : ℕ → Bool
is_http_port port = (port == 80) || (port == 443)

-- std::find over the ports 80 and 443.
unfoldable pub is_replaceable : ℕ → Bool
is_replaceable port = is_http_port port

module _ (env : SessionEnv) where
  unfoldable pub profile_at : Option ℕ → Option AuthProfile
  profile_at none = none
  profile_at (some n) = get_elem? env.auth_profiles n

  unfoldable pub auth_profile : List (Rule env.policy_env.lib.Cidr) → ℤ → Option AuthProfile
  auth_profile rules n = profile_at (policy_prof_auth rules n)

  unfoldable pub get_groups : ℕ → Text → Option (List Text)
  get_groups af host =
      if (af == family_v4) || (af == 0)
      then env.ip4_get_groups host
      else if af == family_v6
      then env.ip6_get_groups host
      else none

  unfoldable pub groups_bad : List SubAuth → Option (List Text) → Bool
  groups_bad subs none = true
  groups_bad subs (some groups) = not (in_sub_policies subs groups)

  unfoldable pub profile_bad : Option AuthProfile → MitmCx → Bool
  profile_bad none left = false
  profile_bad (some a) left = groups_bad a.sub_policies (get_groups left.l3_proto left.host)

  unfoldable pub both_bad :
      List (Rule env.policy_env.lib.Cidr) → Option MitmCx → Option MitmCx → Bool
  both_bad rules none right = false
  both_bad rules (some left) none = false
  both_bad rules (some left) (some right) =
      profile_bad (auth_profile rules left.matched_policy) left

  unfoldable pub authorize_is_bad : List (Rule env.policy_env.lib.Cidr) → Proxy → Bool
  authorize_is_bad rules p = both_bad rules (first_left p) (first_right p)

  -- resolve_identity of a proxy, on its first left context.
  unfoldable pub identity_of : Option MitmCx → Bool
  identity_of none = false
  identity_of (some cx) = env.resolve_identity cx.l3_proto cx.host

  unfoldable pub authorize : List (Rule env.policy_env.lib.Cidr) → Proxy → Proxy × Bool
  authorize rules p =
      if p.opt_auth_authenticate
      then (if identity_of (first_left p)
          then (if authorize_is_bad rules p
              then (record p { auth_block_identity = true }, false)
              else (p, true))
          else (p, false))
      else (p, true)

  unfoldable pub subs_of : Option AuthProfile → List SubAuth
  subs_of none = []
  subs_of (some a) = a.sub_policies

  unfoldable pub authenticate_groups : List SubAuth → Option (List Text) → ℕ → Proxy → Proxy × Bool
  authenticate_groups subs none port p = (p, false)
  authenticate_groups subs (some groups) port p =
      if in_sub_policies subs groups
      then (p, true)
      else if is_http_port port
      then (record p { auth_block_identity = true }, true)
      else (p, false)

  -- The context and the destination port of its com().
  unfoldable pub socks5_handoff_authenticate :
      List (Rule env.policy_env.lib.Cidr) → MitmCx → ℕ → Proxy → Proxy × Bool
  socks5_handoff_authenticate rules cx port p =
      authenticate_groups (subs_of (auth_profile rules p.matched_policy))
        (get_groups cx.l3_proto cx.host) port p

  unfoldable pub socks5_handoff_resolve_identity :
      List (Rule env.policy_env.lib.Cidr) → MitmCx → ℕ → Proxy → Proxy × Bool
  socks5_handoff_resolve_identity rules cx port p =
      if p.opt_auth_authenticate || p.opt_auth_resolve
      then (if env.resolve_identity cx.l3_proto cx.host
          then (if p.opt_auth_authenticate
              then socks5_handoff_authenticate rules cx port p
              else (p, true))
          else (p, not p.opt_auth_authenticate || is_http_port port))
      else (p, true)
