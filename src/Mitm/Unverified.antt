-- ===== src/Mitm/Unverified.antt =====
-- handle_com_response_ssl of src/proxy/mitmproxy.cpp on a certificate that is not verified.
use mathlib.Core.Path.{subst}
use smithproxy.Base.{
  ◌&&◌, ◌||◌, ℕ, ◌≡◌, ◌≢◌, refl, sym, ap, ◌∙◌, Bool, true, false, not, some, ◌==◌, ◌⊎◌, inl, inr,
  if-keeps, if_yes, if_no, ne→==_false,
}
use smithproxy.Base.Outcome.{value, Yields, Yields->>=}
use smithproxy.Mitm.{
  ReplaceType, replacetype_none, replacetype_http, replace_block, Ssl, MitmEnv, World,
}
use smithproxy.Mitm.Pages.{handle_replacement_ssl, whitelist_make_key_l4}
use smithproxy.Mitm.Guard.{
  is_key, whitelist_make_key_cert, with_flag, kill, is_https_port, is_white_listed, block_ssl,
  as_http, replace_ssl, unless_listed, is_verified, check_peer, set_handled,
  handle_com_response_ssl,
}
use smithproxy.Mitm.Blocked.{ReadableApp, Replied, handle_replacement_ssl-Replied}

module _ (env : MitmEnv) where
  open env use {whitelist}

  -- The client got a page and counts as redirected, or the session is dead.
  abbrev pub Stopped : World env → World env × Bool → Type 0
  Stopped w r = ((r.1 ≡ true) × Replied env w r.0) ⊎ (r.0.px.dead ≡ true)

  -- No key of the client is on the whitelist.
  abbrev pub Unlisted : World env → Type 0
  Unlisted w =
      (whitelist.has (whitelist_make_key_l4 env w.mh) w.whitelisted ≡ false)
      × (whitelist.has (whitelist_make_key_cert w.mh.peer_ssl) w.whitelisted ≡ false)

  block_ssl-Stopped :
      (w : World env) (scom : Ssl)
      → w.mh.peer_ssl ≡ some scom
      → ReadableApp w.mh.application_data
      → Yields (Stopped w) (block_ssl env w)
  unfolding block_ssl with_flag
  block_ssl-Stopped w scom e h =
      Yields->>= (Replied env w) (Stopped w)
        (handle_replacement_ssl env (with_flag env replace_block w)) _
        (handle_replacement_ssl-Replied env (with_flag env replace_block w) scom e h)
        λ v r. inl (refl, r)

  replace_ssl-Stopped :
      (t : ReplaceType) (w : World env) (scom : Ssl)
      → w.mh.peer_ssl ≡ some scom
      → ReadableApp w.mh.application_data
      → Yields (Stopped w) (replace_ssl env t w)
  unfolding replace_ssl kill as_http
  replace_ssl-Stopped replacetype_none w scom e h =
      if-keeps (Yields (Stopped w)) (is_https_port w.px.first_right_port)
        (block_ssl env (as_http env w)) (value (kill env w, false))
        (block_ssl-Stopped (as_http env w) scom e h) (inr refl)
  replace_ssl-Stopped replacetype_http w scom e h = block_ssl-Stopped w scom e h

  and_false : (b c : Bool) → c ≡ false → b && c ≡ false
  and_false true c h = h
  and_false false c h = refl

  not_listed :
      (now : ℕ) (scom : Ssl) (w : World env)
      → Unlisted w
      → is_white_listed env now scom w ≡ (w, false)
  unfolding is_white_listed
  not_listed now scom w (a, b) =
      if_no _ _ _ (and_false (is_key (whitelist_make_key_l4 env w.mh)) _ a)
      ∙ if_no _ _ _ (and_false (is_key (whitelist_make_key_cert w.mh.peer_ssl)) _ b)

  -- A first call for a session whose peer has a certificate that is neither good nor good but for
  -- a request for the client's, where its options ask for a replacement, the peer's verification
  -- lets nothing through and no key of the client is on the whitelist, and the data of the session
  -- is no HTTP request in which the first "orig_url" has no character behind it: the call returns,
  -- and then the client has got one page more, its connection closes behind it and the call says
  -- that it was redirected, or the session is dead; and the check is not made again.
  pub handle_com_response_ssl-Stopped :
      (now : ℕ) (w : World env) (scom : Ssl)
      → w.px.ssl_handled ≡ false
      → w.mh.peer_ssl ≡ some scom
      → scom.verify_status_opt_allowed ≡ false
      → scom.failed_check_replacement ≡ true
      → scom.verify ≢ env.vrf_ok
      → scom.verify ≢ env.vrf_ok_client_cert_rq
      → Unlisted w
      → ReadableApp w.mh.application_data
      → Yields (λ r. Stopped w r × (r.0.px.ssl_handled ≡ true)) (handle_com_response_ssl env now w)
  unfolding handle_com_response_ssl check_peer unless_listed set_handled is_verified
  handle_com_response_ssl-Stopped now w scom first e opt asks bad worse u h =
      subst (Yields (λ r. Stopped w r × (r.0.px.ssl_handled ≡ true))) (sym (if_no _ _ _ first)) (
        Yields->>= (Stopped w) _ (check_peer env now w.mh.peer_ssl w) _
          (subst (Yields (Stopped w)) (sym checked)
            (replace_ssl-Stopped w.mh.replacement_type w scom e h))
          λ r s. (s, refl))
    where
      replaces :
          scom.failed_check_replacement
            && not ((scom.verify == env.vrf_ok) || (scom.verify == env.vrf_ok_client_cert_rq))
          ≡ true
      replaces =
          rw
            (
              asks,
              ne→==_false scom.verify env.vrf_ok bad,
              ne→==_false scom.verify env.vrf_ok_client_cert_rq worse,
            )
            refl

      checked : check_peer env now w.mh.peer_ssl w ≡ replace_ssl env w.mh.replacement_type w
      checked =
          ap (λ o. check_peer env now o w) e
          ∙ if_no _ _ _ opt
          ∙ if_yes _ _ _ replaces
          ∙ ap (unless_listed env) (not_listed now scom w u)
