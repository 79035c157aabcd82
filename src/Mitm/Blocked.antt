-- ===== src/Mitm/Blocked.antt =====
-- handle_replacement_ssl and handle_com_response_ssl of src/proxy/mitmproxy.cpp: what becomes of a
-- session whose certificate is not verified.
use mathlib.Core.Path.{subst}
use smithproxy.Base.{
  ℕ, ◌+◌, ◌≤◌, ◌≡◌, refl, sym, ap, ◌∙◌, Bool, true, false, ◌∷◌, Option, none, some, Text, leb, ◌⊎◌,
  inl, inr, length, if-cases, if-keeps, same_text, if_yes, arith,
}
use smithproxy.Base.Outcome.{value, throws, out_of_range, Yields, Yields->>=, Yields-weaken, ◌>>=◌}
use smithproxy.Dns.Response.{ascii}
use smithproxy.Mitm.{
  override_applied, override_denied, warning, to_warning, to_root, enforced, HttpRequest, App, http,
  other_app, request, Page, Ssl, MitmEnv, World, find_text, contains, substr,
}
use smithproxy.Mitm.Pages.{
  is_empty, or_root, orig_url, orig_uri_at, find_orig_uri, reply, add_msg, override_to,
  override_form, generate_block_override, whitelist_client, whitelist_make_key_l4, override,
  show_warning, replaced_http, replaced_app, replaced_ssl, handle_replacement_ssl,
}

-- No address to return to starts right at the end of the request: a name "orig_url" has a
-- character behind it.
abbrev pub Readable : HttpRequest → Type 0
Readable r = (i : ℕ) → find_text orig_url (request r) ≡ some i → i + 9 ≤ length (request r)

abbrev pub ReadableApp : Option App → Type 0
ReadableApp none = Unit
ReadableApp (some (http s r)) = Readable r
ReadableApp (some (other_app s t)) = Unit

le→leb : (a b : ℕ) → a ≤ b → leb a b ≡ true
le→leb a b h = ground arith

find_orig_uri-Readable : (r : HttpRequest) → Readable r → Yields (λ o. Unit {0}) (find_orig_uri r)
unfolding find_orig_uri orig_uri_at substr
find_orig_uri-Readable r h = at (find_text orig_url (request r)) refl
  where
    at :
        (o : Option ℕ)
        → find_text orig_url (request r) ≡ o
        → Yields (λ o. Unit {0}) (orig_uri_at (request r) o)
    at none e = tt
    at (some i) e = rw (le→leb _ _ (h i e)) tt

find_orig_uri-throws :
    (r : HttpRequest) (i : ℕ)
    → find_text orig_url (request r) ≡ some i
    → length (request r) ≡ i + 8
    → find_orig_uri r ≡ throws out_of_range
unfolding find_orig_uri orig_uri_at substr
find_orig_uri-throws r i g l = rw (g, short (length (request r)) i l) refl
  where
    short : (n i : ℕ) → n ≡ i + 8 → leb (i + 9) n ≡ false
    short n i e = ground arith

module _ (env : MitmEnv) where
  open env use {whitelist}

  -- One page more, behind which the context closes.
  abbrev pub Replied : World env → World env → Type 0
  Replied w v =
      (page : Page) × (v.mh.written ≡ page ∷ w.mh.written) × (v.mh.close_after_write ≡ true)

  -- The whitelist is as it was, or the client was put on it by an override that is allowed.
  abbrev pub Overridden : Ssl → App → World env → World env → Type 0
  Overridden scom app w v =
      (v.whitelisted ≡ w.whitelisted)
      ⊎ ((s : Bool) × (r : HttpRequest) × (app ≡ http s r)
          × (scom.failed_check_override ≡ true)
          × (contains (ascii "/SM/IT/HP/RO/XY/override") (request r) ≡ true)
          × (v.whitelisted
              ≡ whitelist.set (whitelist_make_key_l4 env w.mh) scom.failed_check_override_timeout
                  w.whitelisted))

  abbrev pub Served : Ssl → App → World env → World env → Type 0
  Served scom app w v = Replied w v × Overridden scom app w v

  override-Served :
      (scom : Ssl) (s : Bool) (r : HttpRequest) (w : World env)
      → Readable r
      → contains (ascii "/SM/IT/HP/RO/XY/override") (request r) ≡ true
      → Yields (Served scom (http s r) w) (override env scom r w)
  unfolding override reply add_msg whitelist_client
  override-Served scom s r w h c =
      if-cases (Yields (Served scom (http s r) w)) scom.failed_check_override _ _
        (λ allowed.
          Yields->>= (λ o. Unit {0}) (Served scom (http s r) w) (find_orig_uri r) _
            (find_orig_uri-Readable r h)
            λ o _. ((override_applied (or_root o), refl, refl), inr (s, r, refl, allowed, c, refl)))
        (λ _. ((override_denied, refl, refl), inl refl))

  form-Yields :
      (scom : Ssl) (r : HttpRequest) (w : World env)
      → Readable r
      → Yields (λ o. Unit {0}) (generate_block_override env scom r w.mh)
  unfolding generate_block_override override_form override_to
  form-Yields scom r w h =
      if-cases (Yields (λ o. Unit {0})) scom.failed_check_override _ _ (λ _. formed w.mh.peer)
        (λ _. tt)
    where
      formed :
          (o : Option (Text × Text))
          → Yields (λ o. Unit {0}) (override_form env r (whitelist_make_key_l4 env w.mh) o)
      formed none = tt
      formed (some peer) = if-keeps (Yields (λ o. Unit {0})) (is_empty r.uri) _ _ tt (
          Yields->>= (λ o. Unit {0}) (λ o. Unit {0}) (find_orig_uri r) _
            (find_orig_uri-Readable r h) λ o _. tt)

  show_warning-Served :
      (scom : Ssl) (s : Bool) (r : HttpRequest) (w : World env)
      → Readable r
      → Yields (Served scom (http s r) w) (show_warning env scom r w)
  unfolding show_warning reply
  show_warning-Served scom s r w h =
      Yields->>= (λ o. Unit {0}) (Served scom (http s r) w)
        (generate_block_override env scom r w.mh) _ (form-Yields scom r w h)
        λ o _. ((warning r.proto r.host o, refl, refl), inl refl)

  replaced_http-Served :
      (scom : Ssl) (s : Bool) (r : HttpRequest) (w : World env)
      → Readable r
      → Yields (Served scom (http s r) w) (replaced_http env scom r w)
  unfolding replaced_http reply
  replaced_http-Served scom s r w h =
      if-cases (Yields (Served scom (http s r) w)) (contains _ (request r)) _ _
        (override-Served scom s r w h)
        (λ _.
          if-keeps (Yields (Served scom (http s r) w)) (contains _ (request r)) _ _
            (show_warning-Served scom s r w h)
            (if-keeps (Yields (Served scom (http s r) w)) (same_text r.uri (ascii "/")) _ _
              ((to_warning, refl, refl), inl refl) ((to_root r.uri, refl, refl), inl refl)))

  replaced_app-Served :
      (scom : Ssl) (app : App) (w : World env)
      → ReadableApp (some app)
      → Yields (Served scom app w) (replaced_app env scom (some app) w)
  unfolding replaced_app reply add_msg
  replaced_app-Served scom (http s r) w h = replaced_http-Served scom s r w h
  replaced_app-Served scom (other_app s t) w h = ((enforced, refl, refl), inl refl)

  at_app :
      (w : World env) (scom : Ssl) (o : Option App)
      → w.mh.peer_ssl ≡ some scom
      → w.mh.application_data ≡ o
      → handle_replacement_ssl env w ≡ replaced_app env scom o w
  unfolding handle_replacement_ssl replaced_ssl
  at_app w scom o e f = ap (λ p. replaced_ssl env p w) e ∙ ap (λ a. replaced_app env scom a w) f

  -- Where the request can be read, the client of a connection over TLS gets one page, behind which
  -- its connection closes; and the whitelist stays as it is, or the client was put on it because
  -- it asked for the override and the override is allowed.
  pub handle_replacement_ssl-Served :
      (w : World env) (scom : Ssl) (app : App)
      → w.mh.peer_ssl ≡ some scom
      → w.mh.application_data ≡ some app
      → ReadableApp (some app)
      → Yields (Served scom app w) (handle_replacement_ssl env w)
  handle_replacement_ssl-Served w scom app e f h =
      subst (Yields (Served scom app w)) (sym (at_app w scom (some app) e f))
        (replaced_app-Served scom app w h)

  -- A request for the override that is allowed, whose first "orig_url" stands at its very end:
  -- std::out_of_range is thrown out of the handler.
  pub handle_replacement_ssl-throws :
      (w : World env) (scom : Ssl) (s : Bool) (r : HttpRequest) (i : ℕ)
      → w.mh.peer_ssl ≡ some scom
      → w.mh.application_data ≡ some (http s r)
      → scom.failed_check_override ≡ true
      → contains (ascii "/SM/IT/HP/RO/XY/override") (request r) ≡ true
      → find_text orig_url (request r) ≡ some i
      → length (request r) ≡ i + 8
      → handle_replacement_ssl env w ≡ throws out_of_range
  unfolding replaced_app replaced_http override
  handle_replacement_ssl-throws w scom s r i e f o c g l =
      at_app w scom (some (http s r)) e f
      ∙ if_yes _ _ _ c
      ∙ if_yes _ _ _ o
      ∙ ap (λ m. m >>= λ uri. value (overridden uri)) (find_orig_uri-throws r i g l)
    where
      overridden : Option Text → World env
      overridden uri =
          add_msg env (ascii "(ssl: override)")
            (reply env (override_applied (or_root uri)) (whitelist_client env scom w))

  -- The same for a context that may have no application data.
  pub handle_replacement_ssl-Replied :
      (w : World env) (scom : Ssl)
      → w.mh.peer_ssl ≡ some scom
      → ReadableApp w.mh.application_data
      → Yields (Replied w) (handle_replacement_ssl env w)
  unfolding replaced_app reply add_msg
  handle_replacement_ssl-Replied w scom e h =
      subst (Yields (Replied w)) (sym (at_app w scom w.mh.application_data e refl))
        (any_app w.mh.application_data h)
    where
      any_app : (o : Option App) → ReadableApp o → Yields (Replied w) (replaced_app env scom o w)
      any_app none h = (enforced, refl, refl)
      any_app (some app) h =
          Yields-weaken (Served scom app w) (Replied w) (replaced_app env scom (some app) w)
            (replaced_app-Served scom app w h) λ v served. served.0
