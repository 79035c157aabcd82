-- ===== src/Mitm/Guard.antt =====
-- handle_authentication, is_white_listed, handle_com_response_ssl and handle_requirements of
-- src/proxy/mitmproxy.cpp.
use smithproxy.Base.{
  ℕ, ◌+◌, ◌%◌, Bool, true, false, not, ◌&&◌, ◌||◌, Option, none, some, Text, same_text, ltb, ◌==◌,
  if◌then◌else◌,
}
use smithproxy.Base.Outcome.{Outcome, value, ◌>>=◌}
use smithproxy.Dns.Response.{ascii}
use smithproxy.Auth.Resolve.{Login, Tables, resolve_identity}
use smithproxy.Mitm.{
  ReplaceType, replacetype_none, replacetype_http, ReplaceFlag, replace_redirect, replace_block,
  Ssl, MitmHost, MitmEnv, World,
}
use smithproxy.Mitm.Pages.{
  handle_replacement_auth, handle_replacement_ssl, whitelist_make_key_l4, is_empty,
}

-- The fingerprint of the peer's certificate.
unfoldable pub whitelist_make_key_cert : Option Ssl → Text
whitelist_make_key_cert none = ascii ""
whitelist_make_key_cert (some scom) = scom.target_fingerprint

unfoldable pub is_key : Text → Bool
is_key key = not (is_empty key) && not (same_text key (ascii "?"))

unfoldable pub is_https_port : Option Text → Bool
is_https_port none = false
is_https_port (some port) = same_text port (ascii "443")

module _ (env : MitmEnv) where
  open env use {auth, whitelist}

  unfoldable pub with_flag : ReplaceFlag → World env → World env
  with_flag flag w = record w { mh = record w.mh { replacement_flag = flag } }

  unfoldable pub kill : World env → World env
  kill w = record w { px = record w.px { dead = true } }

  unfoldable pub resolved : Tables auth × Login × Bool → World env → World env
  resolved (tables, login, known) w = record w {
    tables = tables;
    px = record w.px { login = login };
  }

  -- A page for the client, which counts as redirected.
  unfoldable pub replace_auth : ℕ → Text → ReplaceFlag → World env → Outcome (World env × Bool)
  replace_auth now random flag w = do
    w' ← handle_replacement_auth env now random (with_flag flag w)
    value (w', true)

  unfoldable pub ask_login : ℕ → Text → ReplaceType → World env → Outcome (World env × Bool)
  ask_login now random replacetype_http w = replace_auth now random replace_redirect w
  ask_login now random replacetype_none w =
      if ltb 200 w.mh.meter_read_bytes then value (kill w, false) else value (w, false)

  unfoldable pub block_login : ℕ → Text → ReplaceType → World env → Outcome (World env × Bool)
  block_login now random replacetype_http w = replace_auth now random replace_block w
  block_login now random replacetype_none w = value (w, false)

  unfoldable pub by_identity : ℕ → Text → World env → Outcome (World env × Bool)
  by_identity now random w =
      if w.px.login.identity_resolved
      then (if w.px.auth_block_identity
          then block_login now random w.mh.replacement_type w
          else value (w, false))
      else if w.px.opt_auth_authenticate
      then ask_login now random w.mh.replacement_type w
      else value (w, false)

  unfoldable pub handle_authentication : ℕ → Text → World env → Outcome (World env × Bool)
  handle_authentication now random w =
      if w.px.opt_auth_authenticate || w.px.opt_auth_resolve
      then (do
        r ← resolve_identity auth now false (some w.mh.client) w.px.login w.tables
        by_identity now random (resolved r w))
      else value (w, false)

  unfoldable pub renew : ℕ → Ssl → Text → World env → World env
  renew now scom key w =
      if scom.failed_check_override_timeout_type == 1
      then record w {
        whitelisted =
            whitelist.set_expired_at key (now + scom.failed_check_override_timeout) w.whitelisted;
      }
      else w

  unfoldable pub is_white_listed : ℕ → Ssl → World env → World env × Bool
  is_white_listed now scom w =
      let l4 = whitelist_make_key_l4 env w.mh in
      let cert = whitelist_make_key_cert w.mh.peer_ssl in
      if is_key l4 && whitelist.has l4 w.whitelisted
      then (renew now scom l4 w, true)
      else if is_key cert && whitelist.has cert w.whitelisted
      then (renew now scom cert w, true)
      else (w, false)

  unfoldable pub block_ssl : World env → Outcome (World env × Bool)
  block_ssl w = do w' ← handle_replacement_ssl env (with_flag replace_block w); value (w', true)

  unfoldable pub as_http : World env → World env
  as_http w = record w { mh = record w.mh { replacement_type = replacetype_http } }

  -- The last branches of the source are for values that the type of the replacement does not have.
  unfoldable pub replace_ssl : ReplaceType → World env → Outcome (World env × Bool)
  replace_ssl replacetype_none w =
      if is_https_port w.px.first_right_port then block_ssl (as_http w) else value (kill w, false)
  replace_ssl replacetype_http w = block_ssl w

  unfoldable pub unless_listed : World env × Bool → Outcome (World env × Bool)
  unless_listed (w, listed) =
      if listed then value (w, false) else replace_ssl w.mh.replacement_type w

  unfoldable pub is_verified : Ssl → Bool
  is_verified scom = (scom.verify == env.vrf_ok) || (scom.verify == env.vrf_ok_client_cert_rq)

  unfoldable pub check_peer : ℕ → Option Ssl → World env → Outcome (World env × Bool)
  check_peer now none w = value (w, false)
  check_peer now (some scom) w =
      if scom.verify_status_opt_allowed
      then value (w, false)
      else if scom.failed_check_replacement && not (is_verified scom)
      then unless_listed (is_white_listed now scom w)
      else value (w, false)

  unfoldable pub set_handled : World env → World env
  set_handled w = record w { px = record w.px { ssl_handled = true } }

  unfoldable pub handle_com_response_ssl : ℕ → World env → Outcome (World env × Bool)
  handle_com_response_ssl now w =
      if w.px.ssl_handled
      then value (w, false)
      else (do r ← check_peer now w.mh.peer_ssl w; value (set_handled r.0, r.1))

  unfoldable pub is_due : MitmHost → Bool
  is_due mh =
      (ltb mh.meter_read_bytes 1024 && ltb mh.meter_write_bytes 1024)
      || ((mh.meter_read_count + mh.meter_write_count) % 100 == 0)

  -- The answer of the authentication is overwritten.
  unfoldable pub handle_requirements : ℕ → Text → World env → Outcome (World env × Bool)
  handle_requirements now random w = do
    r ← (if is_due w.mh then handle_authentication now random w else value (w, false))
    handle_com_response_ssl now r.0
