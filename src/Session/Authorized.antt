-- ===== src/Session/Authorized.antt =====
-- What proxymaker::authorize of src/proxy/proxymaker.cpp lets through.
use mathlib.Core.Path.{subst}
use mathlib.Core.Option.{some-injective}
use smithproxy.Base.{
  Bool, true, false, not, List, [], ◌∷◌, Option, none, some, Text, same_text, same_text_iff, ◌≡◌,
  refl, sym, ap, ◌↔◌, ◌⊎◌, inl, inr, Any, if◌then◌else◌, if_same,
}
use smithproxy.Policy.Rule.{Rule}
use smithproxy.Session.{MitmCx, Proxy, SubAuth, AuthProfile, SessionEnv, first_left, first_right}
use smithproxy.Session.Identity.{
  has_text, in_sub_policies, auth_profile, get_groups, groups_bad, profile_bad, both_bad,
  authorize_is_bad, identity_of, authorize,
}

if_true : (b c : Bool) → (if b then true else c) ≡ true → (b ≡ true) ⊎ (c ≡ true)
if_true true c h = inl refl
if_true false c h = inr h

has_text→Any : (name : Text) (xs : List Text) → has_text name xs ≡ true → Any (λ x. x ≡ name) xs
unfolding has_text
has_text→Any name [] h = absurd (cc)
has_text→Any name (x ∷ xs) h = elim (if_true (same_text x name) _ h) [
  | inl e ↦ inl ((same_text_iff x name).0 e)
  | inr e ↦ inr (has_text→Any name xs e)
]

Any→has_text : (name : Text) (xs : List Text) → Any (λ x. x ≡ name) xs → has_text name xs ≡ true
unfolding has_text
Any→has_text name [] h = elim h [ ]
Any→has_text name (x ∷ xs) (inl e) = rw ((same_text_iff x name).1 e) refl
Any→has_text name (x ∷ xs) (inr h) = rw (Any→has_text name xs h) (if_same (same_text x name) true)

-- A group that a sub-policy names.
abbrev pub Named : List SubAuth → List Text → Type 0
Named subs groups = Any (λ sub. Any (λ g. g ≡ sub.element_name) groups) subs

in_sub→Named :
    (subs : List SubAuth) (groups : List Text)
    → in_sub_policies subs groups ≡ true
    → Named subs groups
unfolding in_sub_policies
in_sub→Named [] groups h = absurd (cc)
in_sub→Named (sub ∷ subs) groups h = elim (if_true (has_text sub.element_name groups) _ h) [
  | inl e ↦ inl (has_text→Any sub.element_name groups e)
  | inr e ↦ inr (in_sub→Named subs groups e)
]

Named→in_sub :
    (subs : List SubAuth) (groups : List Text)
    → Named subs groups
    → in_sub_policies subs groups ≡ true
unfolding in_sub_policies
Named→in_sub [] groups h = elim h [ ]
Named→in_sub (sub ∷ subs) groups (inl h) = rw (Any→has_text sub.element_name groups h) refl
Named→in_sub (sub ∷ subs) groups (inr h) =
    rw (Named→in_sub subs groups h) (if_same (has_text sub.element_name groups) true)

-- What is known of an address that may pass.
abbrev pub Permitted : List SubAuth → Option (List Text) → Type 0
Permitted subs o = (groups : List Text) × (o ≡ some groups) × Named subs groups

module _ (env : SessionEnv) where
  groups_bad-Permitted :
      (subs : List SubAuth) (o : Option (List Text))
      → (groups_bad env subs o ≡ false) ↔ Permitted subs o
  unfolding groups_bad
  groups_bad-Permitted subs none = (λ h. absurd (cc), λ (groups, e, h). absurd (cc))
  groups_bad-Permitted subs (some groups) = (
    λ h. (groups, refl, in_sub→Named subs groups (not_false _ h)),
    λ (gs, e, h).
        rw (Named→in_sub subs groups (subst (Named subs) (sym (some-injective _ _ e)) h)) refl,
  )
    where
      not_false : (b : Bool) → not b ≡ false → b ≡ true
      not_false true h = refl
      not_false false h = absurd (cc)

  nested :
      {A : Type 0} (i b : Bool) (x y z : A × Bool)
      → x.1 ≡ false
      → y.1 ≡ true
      → z.1 ≡ false
      → ((if i then (if b then x else y) else z).1 ≡ true) ↔ ((i ≡ true) × (b ≡ false))
  nested true true x y z hx hy hz = (λ h. absurd (cc), λ (p, q). absurd (cc))
  nested true false x y z hx hy hz = (λ h. (refl, refl), λ h. hy)
  nested false b x y z hx hy hz = (λ h. absurd (cc), λ (p, q). absurd (cc))

  authorize_asked :
      (rules : List (Rule env.policy_env.lib.Cidr)) (p : Proxy)
      → p.opt_auth_authenticate ≡ true
      → authorize env rules p ≡ (
          if identity_of env (first_left p)
          then (if authorize_is_bad env rules p
              then (record p { auth_block_identity = true }, false)
              else (p, true))
          else (p, false))
  unfolding authorize
  authorize_asked rules p o =
      ap
        (λ b.
          if b
          then (if identity_of env (first_left p)
              then (if authorize_is_bad env rules p
                  then (record p { auth_block_identity = true }, false)
                  else (p, true))
              else (p, false))
          else (p, true))
        o

  bad_of :
      (rules : List (Rule env.policy_env.lib.Cidr)) (p : Proxy) (l r : MitmCx) (a : AuthProfile)
      → first_left p ≡ some l
      → first_right p ≡ some r
      → auth_profile env rules l.matched_policy ≡ some a
      → authorize_is_bad env rules p
        ≡ groups_bad env a.sub_policies (get_groups env l.l3_proto l.host)
  unfolding authorize_is_bad both_bad profile_bad
  bad_of rules p l r a hl hr ha = rw (hl, hr, ha) refl

  -- Where the matched rule has an authentication profile that asks for it, authorize lets a
  -- session with both contexts through exactly if the client's identity is known and one of the
  -- client's groups is the name of a sub-policy of that profile.
  pub authorize-Permitted :
      (rules : List (Rule env.policy_env.lib.Cidr)) (p : Proxy) (l r : MitmCx) (a : AuthProfile)
      → p.opt_auth_authenticate ≡ true
      → first_left p ≡ some l
      → first_right p ≡ some r
      → auth_profile env rules l.matched_policy ≡ some a
      → ((authorize env rules p).1 ≡ true) ↔ (
          (env.resolve_identity l.l3_proto l.host ≡ true)
          × Permitted a.sub_policies (get_groups env l.l3_proto l.host))
  unfolding identity_of
  authorize-Permitted rules p l r a o hl hr ha =
      let g = groups_bad-Permitted a.sub_policies (get_groups env l.l3_proto l.host) in
      let (f, b) = asked in (λ h. let (i, k) = f h in (i, g.0 k), λ (i, k). b (i, g.1 k))
    where
      asked : ((authorize env rules p).1 ≡ true) ↔ (
          (env.resolve_identity l.l3_proto l.host ≡ true)
          × (groups_bad env a.sub_policies (get_groups env l.l3_proto l.host) ≡ false))
      asked =
          rw (authorize_asked rules p o, ap (identity_of env) hl, bad_of rules p l r a hl hr ha)
            (nested _ _ _ _ _ refl refl refl)
