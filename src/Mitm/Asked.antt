-- ===== src/Mitm/Asked.antt =====
-- handle_authentication and handle_requirements of src/proxy/mitmproxy.cpp on a client that is not
-- known.
use mathlib.Core.Path.{subst}
use smithproxy.Base.{
  ℕ, ◌≤◌, ◌<◌, ◌≡◌, refl, sym, ap, ◌∙◌, Bool, true, false, ◌||◌, Option, none, some, Text, ltb,
  if-keeps, if-cases, ltb→lt, inl, inr, ◌⊎◌, if_yes, if_no, arith,
}
use smithproxy.Base.Outcome.{value, Yields, Yields->>=, Yields-weaken, ◌>>=◌}
use smithproxy.Session.{AuthProfile}
use smithproxy.Auth.Resolve.{Login, Tables, resolve_identity}
use smithproxy.Mitm.{
  ReplaceType, replacetype_none, replacetype_http, replace_redirect, App, MitmEnv, World,
}
use smithproxy.Mitm.Pages.{
  age32, redirect_page, reply, add_msg, token_of, new_token, new_token_for, known_token,
  auth_profile_of, redirected, replaced_auth, with_app_auth, handle_replacement_auth,
}
use smithproxy.Mitm.Guard.{
  with_flag, kill, resolved, replace_auth, ask_login, by_identity, handle_authentication,
}
use smithproxy.Mitm.Blocked.{Replied}

module _ (env : MitmEnv) where
  open env use {auth}

  new_token_for-Replied :
      (now : ℕ) (random : Text) (app : App) (profile : AuthProfile) (w : World env)
      → auth_profile_of env w ≡ some profile
      → Yields (Replied env w) (new_token_for env now random app (auth_profile_of env w) w)
  unfolding new_token_for new_token reply add_msg
  new_token_for-Replied now random app profile w e =
      rw e (redirect_page env app random w, refl, refl)

  redirected-Replied :
      (now : ℕ) (random : Text) (app : App) (profile : AuthProfile) (o : Option (ℕ × Text))
      (w : World env)
      → auth_profile_of env w ≡ some profile
      → Yields (Replied env w) (redirected env now random app o w)
  unfolding redirected known_token reply add_msg
  redirected-Replied now random app profile none w e =
      new_token_for-Replied now random app profile w e
  redirected-Replied now random app profile (some (ts, tk)) w e =
      if-keeps (Yields (Replied env w)) (ltb (age32 now ts) env.token_timeout)
        (value (known_token env app tk w)) _ (redirect_page env app tk w, refl, refl)
        (new_token_for-Replied now random app profile w e)

  redirect-Replied :
      (now : ℕ) (random : Text) (app : App) (profile : AuthProfile) (w : World env)
      → w.mh.application_data ≡ some app
      → auth_profile_of env w ≡ some profile
      → Yields
          (λ r. (r.1 ≡ true) × Replied env w r.0)
          (replace_auth env now random replace_redirect w)
  unfolding replace_auth handle_replacement_auth with_app_auth replaced_auth with_flag
      auth_profile_of
  redirect-Replied now random app profile w e f =
      Yields->>= (Replied env w) (λ r. (r.1 ≡ true) × Replied env w r.0)
        (handle_replacement_auth env now random (with_flag env replace_redirect w)) _
        (subst (Yields (Replied env w))
          (sym (ap (λ o. with_app_auth env now random o (with_flag env replace_redirect w)) e))
          (redirected-Replied now random app profile (token_of w.mh.client.host w.token_map)
            (with_flag env replace_redirect w) f))
        λ v r. (refl, r)

  -- The session after its client was looked up.
  abbrev pub looked_up : World env → Tables auth → Login → World env
  looked_up w tables login = record w { tables = tables; px = record w.px { login = login } }

  looked :
      (now : ℕ) (random : Text) (w : World env) (tables : Tables auth) (login : Login)
      (known : Bool)
      → w.px.opt_auth_authenticate ≡ true
      → resolve_identity auth now false (some w.mh.client) w.px.login w.tables
        ≡ value (tables, login, known)
      → login.identity_resolved ≡ false
      → handle_authentication env now random w
        ≡ ask_login env now random w.mh.replacement_type (looked_up w tables login)
  unfolding handle_authentication by_identity resolved
  looked now random w tables login known o e u =
      if_yes _ _ _ (ap (λ b. b || w.px.opt_auth_resolve) o)
      ∙ ap (λ m. m >>= λ r. by_identity env now random (resolved env r w)) e
      ∙ if_no _ _ _ u
      ∙ if_yes _ _ _ o

  -- What becomes of a client that is not known.
  abbrev pub Guarded : World env → Tables auth → Login → World env × Bool → Type 0
  Guarded w tables login r =
      ((w.mh.replacement_type ≡ replacetype_http) × (r.1 ≡ true) × Replied env w r.0)
      ⊎ ((w.mh.replacement_type ≡ replacetype_none)
          × (200 < w.mh.meter_read_bytes)
          × (r.0.px.dead ≡ true))
      ⊎ ((w.mh.replacement_type ≡ replacetype_none)
          × (w.mh.meter_read_bytes ≤ 200)
          × (r ≡ (looked_up w tables login, false)))

  -- A client that has to authenticate and that the tables do not know, where resolving its identity
  -- returns, the session has application data and the policy has an authentication profile: the
  -- call returns. If HTTP was detected, the client has got one page
  -- more, behind which its connection closes, and the call says that it was redirected. If not,
  -- the session is dead if more than 200 bytes were read, and else only the lookup has changed it
  -- and nothing is redirected.
  pub handle_authentication-Guarded :
      (now : ℕ) (random : Text) (w : World env) (tables : Tables auth) (login : Login)
      (known : Bool) (app : App) (profile : AuthProfile)
      → w.px.opt_auth_authenticate ≡ true
      → resolve_identity auth now false (some w.mh.client) w.px.login w.tables
        ≡ value (tables, login, known)
      → login.identity_resolved ≡ false
      → w.mh.application_data ≡ some app
      → auth_profile_of env w ≡ some profile
      → Yields (Guarded w tables login) (handle_authentication env now random w)
  unfolding ask_login kill auth_profile_of
  handle_authentication-Guarded now random w tables login known app profile o e u a f =
      by_type w.mh.replacement_type refl
    where
      asked :
          (t : ReplaceType)
          → w.mh.replacement_type ≡ t
          → handle_authentication env now random w
            ≡ ask_login env now random t (looked_up w tables login)
      asked t q =
          looked now random w tables login known o e u
          ∙ ap (λ x. ask_login env now random x (looked_up w tables login)) q

      not_late : (a b : ℕ) → ltb a b ≡ false → b ≤ a
      not_late a b h = ground arith

      by_type :
          (t : ReplaceType)
          → w.mh.replacement_type ≡ t
          → Yields (Guarded w tables login) (handle_authentication env now random w)
      by_type replacetype_http q =
          subst (Yields (Guarded w tables login)) (sym (asked replacetype_http q)) (
            Yields-weaken (λ r. (r.1 ≡ true) × Replied env w r.0) (Guarded w tables login)
              (replace_auth env now random replace_redirect (looked_up w tables login))
              (redirect-Replied now random app profile (looked_up w tables login) a f)
              λ r g. inl (q, g.0, g.1))
      by_type replacetype_none q =
          subst (Yields (Guarded w tables login)) (sym (asked replacetype_none q)) (
            if-cases (Yields (Guarded w tables login)) (ltb 200 w.mh.meter_read_bytes)
              (value (kill env (looked_up w tables login), false))
              (value (looked_up w tables login, false)) (λ l. inr (inl (q, ltb→lt _ _ l, refl)))
              λ l. inr (inr (q, not_late _ _ l, refl)))
