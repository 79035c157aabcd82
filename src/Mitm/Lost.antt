-- ===== src/Mitm/Lost.antt =====
-- handle_requirements of src/proxy/mitmproxy.cpp: the answer of the authentication is lost.
use smithproxy.Base.{
  ℕ, ◌≡◌, refl, ap, ◌∙◌, Bool, true, false, ◌||◌, Option, none, some, Text, ltb, if-keeps, if_yes,
}
use smithproxy.Base.Outcome.{value, Ends, Ends->>=, Ends-any, Ends-value, ◌>>=◌}
use smithproxy.Session.{AuthProfile}
use smithproxy.Auth.Resolve.{resolve_identity}
use smithproxy.Mitm.{
  ReplaceType, replacetype_none, replacetype_http, ReplaceFlag, replace_none, replace_redirect,
  replace_block, App, MitmEnv, World,
}
use smithproxy.Mitm.Pages.{
  age32, reply, add_msg, token_of, new_token, new_token_for, known_token, auth_profile_of,
  redirected, replaced_auth, with_app_auth, handle_replacement_auth,
}
use smithproxy.Mitm.Guard.{
  with_flag, kill, resolved, replace_auth, ask_login, block_login, by_identity,
  handle_authentication, handle_com_response_ssl, is_due, handle_requirements,
}

module _ (env : MitmEnv) where
  open env use {auth}

  -- The check of the certificate is as done as before.
  Same : World env → World env → Type 0
  Same w v = v.px.ssl_handled ≡ w.px.ssl_handled

  SameTold : World env → World env × Bool → Type 0
  SameTold w r = r.0.px.ssl_handled ≡ w.px.ssl_handled

  new_token_for-Same :
      (now : ℕ) (random : Text) (app : App) (o : Option AuthProfile) (w : World env)
      → Ends (Same w) (new_token_for env now random app o w)
  unfolding new_token_for new_token reply add_msg Same
  new_token_for-Same now random app none w = tt
  new_token_for-Same now random app (some profile) w = refl

  redirected-Same :
      (now : ℕ) (random : Text) (app : App) (o : Option (ℕ × Text)) (w : World env)
      → Ends (Same w) (redirected env now random app o w)
  unfolding redirected known_token reply add_msg Same
  redirected-Same now random app none w =
      new_token_for-Same now random app (auth_profile_of env w) w
  redirected-Same now random app (some (ts, tk)) w =
      if-keeps (Ends (Same w)) (ltb (age32 now ts) env.token_timeout)
        (value (known_token env app tk w)) _ refl
        (new_token_for-Same now random app (auth_profile_of env w) w)

  replaced_auth-Same :
      (now : ℕ) (random : Text) (flag : ReplaceFlag) (app : App) (w : World env)
      → Ends (Same w) (replaced_auth env now random flag app w)
  unfolding replaced_auth reply add_msg Same
  replaced_auth-Same now random replace_redirect app w =
      redirected-Same now random app (token_of w.mh.client.host w.token_map) w
  replaced_auth-Same now random replace_block app w = refl
  replaced_auth-Same now random replace_none app w = refl

  replace_auth-Same :
      (now : ℕ) (random : Text) (flag : ReplaceFlag) (w : World env)
      → Ends (SameTold w) (replace_auth env now random flag w)
  unfolding replace_auth handle_replacement_auth with_app_auth with_flag Same SameTold
  replace_auth-Same now random flag w =
      Ends->>= (Same w) (SameTold w) (handle_replacement_auth env now random (with_flag env flag w))
        _ (any_app w.mh.application_data) λ v e. e
    where
      any_app :
          (o : Option App) → Ends (Same w) (with_app_auth env now random o (with_flag env flag w))
      any_app none = tt
      any_app (some app) = replaced_auth-Same now random flag app (with_flag env flag w)

  ask_login-Same :
      (now : ℕ) (random : Text) (t : ReplaceType) (w : World env)
      → Ends (SameTold w) (ask_login env now random t w)
  unfolding ask_login kill SameTold
  ask_login-Same now random replacetype_http w = replace_auth-Same now random replace_redirect w
  ask_login-Same now random replacetype_none w =
      if-keeps (Ends (SameTold w)) (ltb 200 w.mh.meter_read_bytes) (value (kill env w, false))
        (value (w, false)) refl refl

  block_login-Same :
      (now : ℕ) (random : Text) (t : ReplaceType) (w : World env)
      → Ends (SameTold w) (block_login env now random t w)
  unfolding block_login SameTold
  block_login-Same now random replacetype_http w = replace_auth-Same now random replace_block w
  block_login-Same now random replacetype_none w = refl

  by_identity-Same :
      (now : ℕ) (random : Text) (w : World env) → Ends (SameTold w) (by_identity env now random w)
  unfolding by_identity SameTold
  by_identity-Same now random w =
      if-keeps (Ends (SameTold w)) w.px.login.identity_resolved _ _
        (if-keeps (Ends (SameTold w)) w.px.auth_block_identity _ (value (w, false))
          (block_login-Same now random w.mh.replacement_type w) refl)
        (if-keeps (Ends (SameTold w)) w.px.opt_auth_authenticate _ (value (w, false))
          (ask_login-Same now random w.mh.replacement_type w) refl)

  handle_authentication-Same :
      (now : ℕ) (random : Text) (w : World env)
      → Ends (SameTold w) (handle_authentication env now random w)
  unfolding handle_authentication resolved SameTold
  handle_authentication-Same now random w =
      if-keeps (Ends (SameTold w)) (w.px.opt_auth_authenticate || w.px.opt_auth_resolve) _
        (value (w, false))
        (Ends->>= (λ r. Unit {0}) (SameTold w)
          (resolve_identity auth now false (some w.mh.client) w.px.login w.tables) _
          (Ends-any (resolve_identity auth now false (some w.mh.client) w.px.login w.tables))
          λ r _. by_identity-Same now random (resolved env r w))
        refl

  -- Where the check of the peer's certificate was made before and handle_requirements has its turn
  -- to look at the client: whatever handle_authentication, if it returns, says of the client, a redirection to the portal or a block included,
  -- handle_requirements says that the client was not redirected. Its other effects stay.
  pub handle_requirements-lost :
      (now : ℕ) (random : Text) (w v : World env) (told : Bool)
      → is_due env w.mh ≡ true
      → w.px.ssl_handled ≡ true
      → handle_authentication env now random w ≡ value (v, told)
      → handle_requirements env now random w ≡ value (v, false)
  unfolding handle_requirements handle_com_response_ssl SameTold
  handle_requirements-lost now random w v told due handled e =
      ap (λ m. m >>= λ r. handle_com_response_ssl env now r.0) (if_yes _ _ _ due ∙ e)
      ∙ if_yes _ _ _ (
          Ends-value (SameTold w) (handle_authentication env now random w)
            (handle_authentication-Same now random w) e
          ∙ handled)
