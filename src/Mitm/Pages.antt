-- ===== src/Mitm/Pages.antt =====
-- handle_replacement_auth and handle_replacement_ssl of src/proxy/mitmproxy.cpp, with
-- shm_token_table_refresh of src/policy/authfactory4.cpp.
use smithproxy.Base.{
  ℕ, ◌+◌, ◌-◌, ◌%◌, ◌^◌, Bool, true, false, List, [], ◌∷◌, ◌++◌, Option, none, some, Text,
  same_text, ltb, ◌==◌, take, if◌then◌else◌,
}
use smithproxy.Base.Int.{ℤ, pos, minus_one, ltb_ℤ, eqb_ℤ}
use smithproxy.Base.Outcome.{Outcome, value, undefined, ◌>>=◌}
use smithproxy.Dns.Response.{ascii}
use smithproxy.Policy.Table.{policy_prof_auth}
use smithproxy.Session.{SubAuth, AuthProfile}
use smithproxy.Session.Route.{family_v6}
use smithproxy.Auth.{low32}
use smithproxy.Auth.Resolve.{profile_of}
use smithproxy.Mitm.{
  ReplaceFlag, replace_none, replace_redirect, replace_block, HttpRequest, App, http, other_app,
  is_ssl, request, original_request, Page, auth_redirect, auth_blocked, com_not_ssl,
  override_applied, override_denied, warning, to_warning, to_root, enforced, Ssl, MitmHost, MitmEnv,
  World, find_text, contains, substr,
}

unfoldable pub token_of : Text → List (Text × ℕ × Text) → Option (ℕ × Text)
token_of host [] = none
token_of host ((k, ts, tk) ∷ m) = if same_text k host then some (ts, tk) else token_of host m

unfoldable pub set_token : Text → ℕ → Text → List (Text × ℕ × Text) → List (Text × ℕ × Text)
set_token host ts tk [] = (host, ts, tk) ∷ []
set_token host ts tk ((k, x, y) ∷ m) =
    if same_text k host then (k, ts, tk) ∷ m else (k, x, y) ∷ set_token host ts tk m

-- The difference of two unsigned int.
unfoldable pub age32 : ℕ → ℕ → ℕ
age32 now ts = (low32 now + 2 ^ 32 - ts) % 2 ^ 32

-- The text that a token stands for: the request, and the sub-policies it may be for.
unfoldable pub token_text : Text → List SubAuth → Text
token_text text [] = text
token_text text (sub ∷ subs) = token_text (text ++ (ascii " |" ++ sub.element_name)) subs

unfoldable pub portal_proto : Bool → Text
portal_proto true = ascii "https"
portal_proto false = ascii "http"

abbrev pub orig_url : Text
orig_url = ascii "orig_url"

unfoldable pub orig_uri_at : Text → Option ℕ → Outcome (Option Text)
orig_uri_at text none = value none
orig_uri_at text (some a) = do uri ← substr text (a + 9); value (some uri)

unfoldable pub find_orig_uri : HttpRequest → Outcome (Option Text)
find_orig_uri r = orig_uri_at (request r) (find_text orig_url (request r))

unfoldable pub or_root : Option Text → Text
or_root none = ascii "/"
or_root (some uri) = uri

unfoldable pub is_empty : Text → Bool
is_empty [] = true
is_empty (c ∷ cs) = false

module _ (env : MitmEnv) where
  open env use {auth, token_table, whitelist}

  -- A page is written, and the context closes behind it.
  unfoldable pub reply : Page → World env → World env
  reply page w = record w {
    mh = record w.mh { written = page ∷ w.mh.written; close_after_write = true };
  }

  unfoldable pub add_msg : Text → World env → World env
  add_msg text w = record w { px = record w.px { replacement_msg = text ∷ w.px.replacement_msg } }

  unfoldable pub portal_port : Bool → Text
  portal_port true = env.portal_port_https
  portal_port false = env.portal_port_http

  -- Without a com() or with another family than IPv6, the address of IPv4.
  unfoldable pub portal_of : Option ℕ → Text
  portal_of none = env.portal_address
  portal_of (some af) = if af == family_v6 then env.portal_address6 else env.portal_address

  unfoldable pub redirect_page : App → Text → World env → Page
  redirect_page app token w =
      auth_redirect (portal_proto (is_ssl app)) (portal_of w.mh.client.l3_proto)
        (portal_port (is_ssl app)) token

  unfoldable pub token_loaded : ℤ × token_table.State → token_table.State × ℤ
  token_loaded (l, s) = (token_table.release s, if ltb_ℤ (pos 0) l then l else pos 0)

  unfoldable pub token_acquired : ℤ × token_table.State → token_table.State × ℤ
  token_acquired (rc, s) =
      if eqb_ℤ rc (pos 0) then token_loaded (token_table.load s) else (s, minus_one)

  unfoldable pub shm_token_table_refresh : token_table.State → token_table.State × ℤ
  shm_token_table_refresh s = token_acquired (token_table.acquire (token_table.attach s))

  unfoldable pub push_token : Text → Text → token_table.State → token_table.State
  push_token token url s = token_table.release (
      token_table.save
        (token_table.acquire (token_table.push_back (token, url) (shm_token_table_refresh s).0)).1)

  -- `random` is the number of the new token as a text.
  unfoldable pub new_token : ℕ → Text → App → AuthProfile → World env → World env
  new_token now random app profile w =
      let url = take 511 (token_text (original_request app) profile.sub_policies) in
      let w' = add_msg (ascii "(auth: new token)") (reply (redirect_page app random w) w) in
      record w' {
        tokens = push_token random url w.tokens;
        token_map = set_token w.mh.client.host (low32 now) random w.token_map;
      }

  -- A policy without an authentication profile gives a null pointer.
  unfoldable pub new_token_for :
      ℕ → Text → App → Option AuthProfile → World env → Outcome (World env)
  new_token_for now random app none w = undefined
  new_token_for now random app (some profile) w = value (new_token now random app profile w)

  unfoldable pub known_token : App → Text → World env → World env
  known_token app token w =
      add_msg (ascii "(auth: known token)") (reply (redirect_page app token w) w)

  unfoldable pub auth_profile_of : World env → Option AuthProfile
  auth_profile_of w =
      profile_of auth.rules auth.auth_profiles (policy_prof_auth auth.rules w.mh.matched_policy)

  unfoldable pub redirected : ℕ → Text → App → Option (ℕ × Text) → World env → Outcome (World env)
  redirected now random app none w = new_token_for now random app (auth_profile_of w) w
  redirected now random app (some (token_ts, token_tk)) w =
      if ltb (age32 now token_ts) env.token_timeout
      then value (known_token app token_tk w)
      else new_token_for now random app (auth_profile_of w) w

  unfoldable pub replaced_auth : ℕ → Text → ReplaceFlag → App → World env → Outcome (World env)
  replaced_auth now random replace_redirect app w =
      redirected now random app (token_of w.mh.client.host w.token_map) w
  replaced_auth now random replace_block app w = value (
      add_msg (ascii "(auth: blocked)") (
        reply
          (auth_blocked (portal_proto (is_ssl app)) env.portal_address (portal_port (is_ssl app)))
          w))
  replaced_auth now random replace_none app w = value w

  unfoldable pub with_app_auth : ℕ → Text → Option App → World env → Outcome (World env)
  with_app_auth now random none w = undefined
  with_app_auth now random (some app) w = replaced_auth now random w.mh.replacement_flag app w

  unfoldable pub handle_replacement_auth : ℕ → Text → World env → Outcome (World env)
  handle_replacement_auth now random w = with_app_auth now random w.mh.application_data w

  -- whitelist_make_key_l4.
  unfoldable pub l4_key : Text → Option (Text × Text) → Text
  l4_key host none = ascii "?"
  l4_key host (some (peer_host, peer_port)) =
      host ++ (ascii ":" ++ (peer_host ++ (ascii ":" ++ peer_port)))

  unfoldable pub whitelist_make_key_l4 : MitmHost → Text
  whitelist_make_key_l4 mh = l4_key mh.client.host mh.peer

  -- The form of the override: its target, and the address to return to.
  unfoldable pub override_to : HttpRequest → Text → Outcome (Option (Text × Option Text))
  override_to r key =
      if is_empty r.uri
      then value (some (key, none))
      else (do uri ← find_orig_uri r; value (some (key, some (or_root uri))))

  unfoldable pub override_form :
      HttpRequest → Text → Option (Text × Text) → Outcome (Option (Text × Option Text))
  override_form r key none = value (some ([], none))
  override_form r key (some peer) = override_to r key

  unfoldable pub generate_block_override :
      Ssl → HttpRequest → MitmHost → Outcome (Option (Text × Option Text))
  generate_block_override scom r mh =
      if scom.failed_check_override
      then override_form r (whitelist_make_key_l4 mh) mh.peer
      else value none

  unfoldable pub whitelist_client : Ssl → World env → World env
  whitelist_client scom w = record w {
    whitelisted =
        whitelist.set (whitelist_make_key_l4 w.mh) scom.failed_check_override_timeout w.whitelisted;
  }

  -- What set_replacement_msg_ssl adds is left out.
  unfoldable pub override : Ssl → HttpRequest → World env → Outcome (World env)
  override scom r w =
      if scom.failed_check_override
      then (do
        uri ← find_orig_uri r
        value (
            add_msg (ascii "(ssl: override)")
              (reply (override_applied (or_root uri)) (whitelist_client scom w))))
      else value (add_msg (ascii "(ssl: override disabled)") (reply override_denied w))

  unfoldable pub show_warning : Ssl → HttpRequest → World env → Outcome (World env)
  show_warning scom r w = do
    form ← generate_block_override scom r w.mh
    value (reply (warning r.proto r.host form) w)

  unfoldable pub replaced_http : Ssl → HttpRequest → World env → Outcome (World env)
  replaced_http scom r w =
      if contains (ascii "/SM/IT/HP/RO/XY/override") (request r)
      then override scom r w
      else if contains (ascii "/SM/IT/HP/RO/XY/warning") (request r)
      then show_warning scom r w
      else if same_text r.uri (ascii "/")
      then value (reply to_warning w)
      else value (reply (to_root r.uri) w)

  unfoldable pub replaced_app : Ssl → Option App → World env → Outcome (World env)
  replaced_app scom (some (http s r)) w = replaced_http scom r w
  replaced_app scom (some (other_app s t)) w =
      value (add_msg (ascii "(ssl: enforced)") (reply enforced w))
  replaced_app scom none w = value (add_msg (ascii "(ssl: enforced)") (reply enforced w))

  unfoldable pub replaced_ssl : Option Ssl → World env → Outcome (World env)
  replaced_ssl none w = value (reply com_not_ssl w)
  replaced_ssl (some scom) w = replaced_app scom w.mh.application_data w

  unfoldable pub handle_replacement_ssl : World env → Outcome (World env)
  handle_replacement_ssl w = replaced_ssl w.mh.peer_ssl w
