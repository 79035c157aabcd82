-- ===== src/Examples/Portal.antt =====
-- A running session whose client is not known.
use smithproxy.Base.{◌≡◌, refl, true, false, List, [], ◌∷◌, none, some, Text, arith}
use smithproxy.Base.Int.{pos}
use smithproxy.Base.Outcome.{value, Yields}
use smithproxy.Dns.Response.{ascii}
use smithproxy.Policy.Rule.{Rule, action_pass}
use smithproxy.Policy.Table.{policy_prof_auth, auth_at, lookup_policy}
use smithproxy.Session.{SubAuth, AuthProfile}
use smithproxy.Session.Identity.{has_text}
use smithproxy.Auth.Tables.{find, shm_table_refresh, acquired, loaded_rows, refresh_rows, flushed}
use smithproxy.Auth.Resolve.{
  AuthEnv, Login, Tables, resolve_identity, resolve_family, family_of, family_number, resolve_table,
  resolve_new, take_identity, logon_of, profile_of,
}
use smithproxy.Mitm.{
  replacetype_http, replace_redirect, http, HttpRequest, Ssl, MitmHost, TokenTable, Whitelist,
  MitmEnv, World,
}
use smithproxy.Mitm.Pages.{
  with_app_auth, replaced_auth, redirected, new_token_for, new_token, reply, add_msg, redirect_page,
  auth_profile_of, token_of, handle_replacement_auth,
}
use smithproxy.Mitm.Guard.{
  replace_auth, with_flag, handle_authentication, handle_requirements, is_due, by_identity,
  resolved, ask_login,
}
use smithproxy.Mitm.Asked.{Guarded, handle_authentication-Guarded}
use smithproxy.Mitm.Lost.{handle_requirements-lost}
use smithproxy.Mitm.Tokens.{handle_replacement_auth-reuse}
use smithproxy.Examples.{server_rule}
use smithproxy.Examples.Identities.{plain_tables}

abbrev staff_sub : SubAuth
staff_sub = record { element_name = ascii "staff"; profile_tls = true; profile_alg_dns = false }

abbrev staff : AuthProfile
staff = record { authenticate = true; resolve = true; sub_policies = staff_sub ∷ [] }

abbrev asking_rule : Rule Text
asking_rule = record (server_rule action_pass) { profile_auth = some 0 }

abbrev auth : AuthEnv
auth = record {
  v4 = plain_tables;
  v6 = plain_tables;
  Cidr = Text;
  rules = asking_rule ∷ [];
  auth_profiles = staff ∷ [];
}

abbrev plain_tokens : TokenTable
plain_tokens = record {
  State = List (Text × Text);
  attach = λ s. s;
  acquire = λ s. (pos 0, s);
  load = λ s. (pos 0, s);
  release = λ s. s;
  push_back = λ row s. row ∷ s;
  save = λ s. s;
}

abbrev plain_whitelist : Whitelist
plain_whitelist = record {
  State = List Text;
  has = λ key s. has_text key s;
  set = λ key timeout s. key ∷ s;
  set_expired_at = λ key at s. s;
}

abbrev pub portal : MitmEnv
portal = record {
  auth = auth;
  token_table = plain_tokens;
  whitelist = plain_whitelist;
  token_timeout = 20;
  portal_address = ascii "10.0.0.1";
  portal_address6 = ascii "fe80::1";
  portal_port_http = ascii "8008";
  portal_port_https = ascii "8043";
  vrf_ok = 1;
  vrf_ok_client_cert_rq = 33;
}

abbrev pub scom : Ssl
scom = record {
  verify_status_opt_allowed = false;
  verify = 2;
  target_fingerprint = ascii "ab";
  failed_check_replacement = true;
  failed_check_override = true;
  failed_check_override_timeout = 600;
  failed_check_override_timeout_type = 0;
  client_cert_action = 1;
}

abbrev pub asked_page : Text → HttpRequest
asked_page uri = record {
  host = ascii "h";
  uri = uri;
  params = [];
  referer = [];
  proto = ascii "http://";
}

abbrev guest_cx : Text → MitmHost
guest_cx uri = record {
  client = record { host = ascii "10.9"; l3_proto = some 2; nonlocal_dst_port = some 443 };
  matched_policy = pos 0;
  replacement_type = replacetype_http;
  replacement_flag = replace_redirect;
  application_data = some (http false (asked_page uri));
  peer = some (ascii "10.2", ascii "443");
  peer_ssl = some scom;
  meter_read_bytes = 100;
  meter_write_bytes = 0;
  meter_read_count = 1;
  meter_write_count = 0;
  written = [];
  close_after_write = false;
}

abbrev guest_login : Login
guest_login = record {
  identity_resolved = false;
  identity = none;
  matched_policy = pos 0;
  sub_profile = none;
}

abbrev no_identities : Tables auth
no_identities = record {
  table4 = record { ip_map = []; shared = [] };
  table6 = record { ip_map = []; shared = [] };
}

abbrev pub guest : Text → World portal
guest uri = record {
  px = record {
    login = guest_login;
    opt_auth_authenticate = true;
    opt_auth_resolve = true;
    auth_block_identity = false;
    ssl_handled = false;
    dead = false;
    first_right_port = some (ascii "443");
    replacement_msg = [];
  };
  mh = guest_cx uri;
  tables = no_identities;
  token_map = [];
  tokens = [];
  whitelisted = [];
}

staff_asked : auth_profile_of portal (guest (ascii "/")) ≡ some staff
unfolding auth_profile_of profile_of policy_prof_auth auth_at lookup_policy
staff_asked = refl

guest_unknown :
    resolve_identity auth 1000 false (some (guest_cx (ascii "/")).client) guest_login no_identities
    ≡ value (no_identities, guest_login, false)
unfolding resolve_identity resolve_family family_of family_number resolve_table resolve_new
    take_identity logon_of shm_table_refresh acquired loaded_rows refresh_rows flushed find
guest_unknown = refl

handle_authentication-Guarded_example :
    Yields
      (Guarded portal (guest (ascii "/")) no_identities guest_login)
      (handle_authentication portal 1000 (ascii "7") (guest (ascii "/")))
handle_authentication-Guarded_example =
    handle_authentication-Guarded portal 1000 (ascii "7") (guest (ascii "/")) no_identities
      guest_login false (http false (asked_page (ascii "/"))) staff refl guest_unknown refl refl
      staff_asked

no_token : token_of (ascii "10.9") [] ≡ none
unfolding token_of
no_token = refl

handle_replacement_auth-reuse_example :
    Yields
      (λ v.
        Yields
          (λ u.
            (u.mh.written
              ≡ redirect_page portal
                  (http false (asked_page (ascii "/")))
                  (ascii "7")
                  (guest (ascii "/"))
                ∷ redirect_page portal
                    (http false (asked_page (ascii "/")))
                    (ascii "7")
                    (guest (ascii "/"))
                ∷ [])
            × (u.token_map ≡ v.token_map)
            × (u.tokens ≡ v.tokens))
          (handle_replacement_auth portal 1010 (ascii "8") v))
      (handle_replacement_auth portal 1000 (ascii "7") (guest (ascii "/")))
handle_replacement_auth-reuse_example =
    handle_replacement_auth-reuse portal 1000 1010 (ascii "7") (ascii "8") (guest (ascii "/"))
      (http false (asked_page (ascii "/"))) staff (omega arith) (omega arith) (omega arith) refl
      refl staff_asked no_token

-- The certificate of the server was looked at before.
abbrev checked_guest : World portal
checked_guest = record (guest (ascii "/")) {
  px = record (guest (ascii "/")).px { ssl_handled = true };
}

abbrev answered_guest : World portal
answered_guest =
    new_token portal 1000 (ascii "7") (http false (asked_page (ascii "/"))) staff checked_guest

guest_answered :
    handle_authentication portal 1000 (ascii "7") checked_guest ≡ value (answered_guest, true)
unfolding handle_authentication by_identity resolved ask_login replace_auth with_flag
    handle_replacement_auth with_app_auth replaced_auth redirected token_of new_token_for new_token
    auth_profile_of profile_of policy_prof_auth auth_at lookup_policy reply add_msg redirect_page
guest_answered = rw guest_unknown refl

guest_due : is_due portal checked_guest.mh ≡ true
unfolding is_due
guest_due = refl

handle_requirements-lost_example :
    handle_requirements portal 1000 (ascii "7") checked_guest ≡ value (answered_guest, false)
handle_requirements-lost_example =
    handle_requirements-lost portal 1000 (ascii "7") checked_guest answered_guest true guest_due
      refl guest_answered
