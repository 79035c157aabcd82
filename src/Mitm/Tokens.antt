-- ===== src/Mitm/Tokens.antt =====
-- The tokens of handle_replacement_auth in src/proxy/mitmproxy.cpp.
use mathlib.Core.Path.{subst}
use smithproxy.Base.{
  ℕ, ◌+◌, ◌-◌, ◌^◌, ◌≤◌, ◌<◌, ◌≡◌, refl, sym, ap, ◌∙◌, true, List, [], ◌∷◌, none, some, Text,
  same_text, same_text_refl, ltb, lt→ltb, Bool-cases, inl, inr, if_yes, arith,
}
use smithproxy.Base.Outcome.{value, Yields}
use smithproxy.Session.{AuthProfile}
use smithproxy.Auth.{low32}
use smithproxy.Mitm.{replace_redirect, App, MitmEnv, World}
use smithproxy.Mitm.Pages.{
  age32, redirect_page, reply, add_msg, token_of, set_token, new_token, new_token_for, known_token,
  auth_profile_of, redirected, replaced_auth, with_app_auth, handle_replacement_auth,
}

token_of-set_token :
    (host tk : Text) (ts : ℕ) (m : List (Text × ℕ × Text))
    → token_of host (set_token host ts tk m) ≡ some (ts, tk)
unfolding token_of set_token
token_of-set_token host tk ts [] = if_yes _ _ _ (same_text_refl host)
token_of-set_token host tk ts ((k, x, y) ∷ m) = elim (Bool-cases (same_text k host)) [
  | inl e ↦ rw (e, e) refl
  | inr e ↦ rw (e, e) (token_of-set_token host tk ts m)
]

-- A difference of two times that are close and of 32 bits.
age32-sub : (now ts : ℕ) → ts ≤ now → now < 2 ^ 32 → age32 now (low32 ts) ≡ now - ts
unfolding age32
age32-sub now ts h l = omega arith

module _ (env : MitmEnv) where
  asks_portal :
      (now : ℕ) (random : Text) (app : App) (w : World env)
      → w.mh.replacement_flag ≡ replace_redirect
      → w.mh.application_data ≡ some app
      → handle_replacement_auth env now random w
        ≡ redirected env now random app (token_of w.mh.client.host w.token_map) w
  unfolding handle_replacement_auth with_app_auth replaced_auth
  asks_portal now random app w f a =
      ap (λ o. with_app_auth env now random o w) a
      ∙ ap (λ x. replaced_auth env now random x app w) f

  -- A host without a token is redirected to the portal twice, the second time before its token
  -- has reached its timeout: both calls return, both pages have the first token, and the second
  -- call makes no token: neither the map of tokens nor the shared table is changed by it.
  pub handle_replacement_auth-reuse :
      (first second : ℕ) (random other : Text) (w : World env) (app : App) (profile : AuthProfile)
      → first ≤ second
      → second < first + env.token_timeout
      → second < 2 ^ 32
      → w.mh.replacement_flag ≡ replace_redirect
      → w.mh.application_data ≡ some app
      → auth_profile_of env w ≡ some profile
      → token_of w.mh.client.host w.token_map ≡ none
      → Yields
          (λ v.
            Yields
              (λ u.
                (u.mh.written
                  ≡ redirect_page env app random w ∷ redirect_page env app random w ∷ w.mh.written)
                × (u.token_map ≡ v.token_map)
                × (u.tokens ≡ v.tokens))
              (handle_replacement_auth env second other v))
          (handle_replacement_auth env first random w)
  unfolding new_token_for new_token known_token reply add_msg redirect_page redirected
  handle_replacement_auth-reuse first second random other w app profile le lt small f a p n =
      subst (Yields _) (sym once) (subst (Yields _) (sym twice) (refl, refl, refl))
    where
      v : World env
      v = new_token env first random app profile w

      once : handle_replacement_auth env first random w ≡ value v
      once =
          asks_portal first random app w f a
          ∙ ap (λ o. redirected env first random app o w) n
          ∙ ap (λ o. new_token_for env first random app o w) p

      young : ltb (age32 second (low32 first)) env.token_timeout ≡ true
      young = lt→ltb _ _ (omega (arith, age32-sub second first le small))

      twice : handle_replacement_auth env second other v ≡ value (known_token env app random v)
      twice =
          asks_portal second other app v f a
          ∙ ap (λ o. redirected env second other app o v)
              (token_of-set_token w.mh.client.host random (low32 first) w.token_map)
          ∙ if_yes _ _ _ young
