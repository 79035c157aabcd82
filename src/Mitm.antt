-- ===== src/Mitm.antt =====
-- src/proxy/mitmproxy.hpp, src/proxy/mitmhost.hpp and src/inspect/engine/http.hpp: what a MitmProxy
-- keeps of a session that runs, and of its client's context. src/shm/shmauth.hpp and
-- src/policy/authfactory.hpp: the tokens of the portal. Pages are told apart by their variable
-- parts; their HTML and the log lines are left out.
pub mod Pages
pub mod Guard
pub mod Close
pub mod Ended
pub mod Blocked
pub mod Unverified
pub mod Asked
pub mod Lost
pub mod Tokens
use smithproxy.Base.{
  ℕ, zero, suc, ◌+◌, Bool, true, false, List, [], ◌∷◌, ◌++◌, Option, none, some, Text, same_text,
  ◌==◌, ◌&&◌, leb, if◌then◌else◌, length, drop, map,
}
use smithproxy.Base.Int.{ℤ}
use smithproxy.Base.Outcome.{Outcome, value, throws, out_of_range}
use smithproxy.Dns.Response.{ascii}
use smithproxy.Auth.Resolve.{AuthEnv, Client, Login, Tables}

pub data ReplaceType : Type 0 where
  replacetype_none replacetype_http : ReplaceType

pub data ReplaceFlag : Type 0 where
  replace_none replace_redirect replace_block : ReplaceFlag

-- An app_HttpRequest.
pub record HttpRequest : Type 0 where
  pub host : Text
  pub uri : Text
  pub params : Text
  pub referer : Text
  pub proto : Text

-- The application data of a context: of HTTP, or of another protocol with what it calls a request.
pub data App : Type 0 where
  http : Bool → HttpRequest → App
  other_app : Bool → Text → App

unfoldable pub is_ssl : App → Bool
is_ssl (http s r) = s
is_ssl (other_app s r) = s

unfoldable pub request : HttpRequest → Text
request r =
    if same_text r.uri (ascii "/favicon.ico")
    then r.host
    else r.proto ++ (r.host ++ (r.uri ++ r.params))

unfoldable pub original_request : App → Text
original_request (http s r) = elim r.referer [ [] ↦ request r | c ∷ cs ↦ c ∷ cs ]
original_request (other_app s t) = t

-- The pages that are written to a client.
pub data Page : Type 0 where
  auth_redirect : Text → Text → Text → Text → Page
  auth_blocked : Text → Text → Text → Page
  com_not_ssl : Page
  override_applied : Text → Page
  override_denied : Page
  warning : Text → Text → Option (Text × Option Text) → Page
  to_warning : Page
  to_root : Text → Page
  enforced : Page

-- The SSLCom of a peer, and its options.
pub record Ssl : Type 0 where
  pub verify_status_opt_allowed : Bool
  pub verify : ℕ
  pub target_fingerprint : Text
  pub failed_check_replacement : Bool
  pub failed_check_override : Bool
  pub failed_check_override_timeout : ℕ
  pub failed_check_override_timeout_type : ℕ
  pub client_cert_action : ℕ

-- The client's MitmHostCX. `peer` is the host and the port of its peer, and `peer_ssl` the peer's
-- com() if that is an SSLCom; pages written last stand first.
pub record MitmHost : Type 0 where
  pub client : Client
  pub matched_policy : ℤ
  pub replacement_type : ReplaceType
  pub replacement_flag : ReplaceFlag
  pub application_data : Option App
  pub peer : Option (Text × Text)
  pub peer_ssl : Option Ssl
  pub meter_read_bytes : ℕ
  pub meter_write_bytes : ℕ
  pub meter_read_count : ℕ
  pub meter_write_count : ℕ
  pub written : List Page
  pub close_after_write : Bool

-- The MitmProxy.
pub record Mitm : Type 0 where
  pub login : Login
  pub opt_auth_authenticate : Bool
  pub opt_auth_resolve : Bool
  pub auth_block_identity : Bool
  pub ssl_handled : Bool
  pub dead : Bool
  pub first_right_port : Option Text
  pub replacement_msg : List Text

-- The shared table of tokens, and the whitelist, a ptr_cache: both are the socle library's. The
-- whitelist gives the entry of a key that has not expired.
pub record TokenTable : Type 1 where
  pub State : Type 0
  pub attach : State → State
  pub acquire : State → ℤ × State
  pub load : State → ℤ × State
  pub release : State → State
  pub push_back : Text × Text → State → State
  pub save : State → State

pub record Whitelist : Type 1 where
  pub State : Type 0
  pub has : Text → State → Bool
  pub set : Text → ℕ → State → State
  pub set_expired_at : Text → ℕ → State → State

-- What a call is given: the tables, the clock, AuthFactory's options, and the two
-- status numbers of SSLCom that let a certificate through.
pub record MitmEnv : Type 1 where
  pub auth : AuthEnv
  pub token_table : TokenTable
  pub whitelist : Whitelist
  pub token_timeout : ℕ
  pub portal_address : Text
  pub portal_address6 : Text
  pub portal_port_http : Text
  pub portal_port_https : Text
  pub vrf_ok : ℕ
  pub vrf_ok_client_cert_rq : ℕ

-- std::string::find of a text.
unfoldable pub starts_with : Text → Text → Bool
starts_with [] s = true
starts_with (p ∷ ps) [] = false
starts_with (p ∷ ps) (c ∷ cs) = (p == c) && starts_with ps cs

unfoldable pub next_position : Option ℕ → Option ℕ
next_position none = none
next_position (some i) = some (suc i)

unfoldable pub find_text : Text → Text → Option ℕ
find_text p [] = if starts_with p [] then some 0 else none
find_text p (c ∷ cs) = if starts_with p (c ∷ cs) then some 0 else next_position (find_text p cs)

unfoldable pub contains : Text → Text → Bool
contains p s = elim (find_text p s) [ none ↦ false | some i ↦ true ]

-- std::string::substr to the end.
unfoldable pub substr : Text → ℕ → Outcome Text
substr s i = if leb i (length s) then value (drop i s) else throws out_of_range

module _ (env : MitmEnv) where
  open env use {auth, token_table, whitelist}

  -- A session with all that it shares. `token_map` has the time and the token of a host.
  pub record World : Type 0 where
    pub px : Mitm
    pub mh : MitmHost
    pub tables : Tables auth
    pub token_map : List (Text × ℕ × Text)
    pub tokens : token_table.State
    pub whitelisted : whitelist.State
