-- ===== src/Socks/Cache.antt =====
-- The DNS cache in handle5_connect_fqdn of src/proxy/socks5/sockshostcx.cpp.
use mathlib.Core.Path.{subst}
use smithproxy.Base.{
  ℕ, ◌+◌, [], ◌∷◌, Text, some, ◌≡◌, refl, sym, ap, ◌∙◌, if_yes, if_no, true, false, not, arith,
}
use smithproxy.Base.Int.{pos, ltb_ℤ, eqb_ℤ}
use smithproxy.Socks.{Cx, Env, done, no_error, dns_query_sent}
use smithproxy.Socks.Request.{is_empty}
use smithproxy.Socks.Target.{dns_request, send_dns_request, await_answer, setup_dns_async}
use smithproxy.Socks.Connect.{handle5_connect_fqdn, known_targets, query_type, resolve_target}

known_targets-none :
    (env : Env) (cx : Cx) → env.is_cidr cx.req_str_addr ≡ false → known_targets env cx ≡ []
unfolding known_targets
known_targets-none env cx c = if_no (env.is_cidr cx.req_str_addr) _ _ c

resolve_target-async :
    (env : Env) (cx : Cx)
    → cx.async_dns ≡ true
    → resolve_target env cx
      ≡ done (no_error, setup_dns_async env cx.req_str_addr (query_type env cx) cx)
unfolding resolve_target
resolve_target-async env cx a = if_yes cx.async_dns _ _ a

-- A request was sent for a name, and its answer is waited for on the socket that sent it.
abbrev Queried : Env → Text → ℕ → Cx → Cx → Type 0
Queried env name type cx cx' =
    (cx'.sent ≡ dns_request env name type ∷ cx.sent)
    × (cx'.async_dns_query ≡ some env.dns_socket)
    × (cx'.state ≡ dns_query_sent)

send_dns_request-sent :
    (env : Env) (name : Text) (type s : ℕ)
    → env.dns_socket ≡ pos (s + 1)
    → env.dns_connect ≡ pos 0
    → ltb_ℤ (env.dns_send (dns_request env name type)) (pos 0) ≡ false
    → send_dns_request env name type ≡ (env.dns_socket, dns_request env name type ∷ [])
unfolding send_dns_request
send_dns_request-sent env name type s o c t =
    if_no _ _ _ (ap (λ k. ltb_ℤ k (pos 0)) o ∙ above s)
    ∙ if_no _ _ _ (ap (λ k. not (eqb_ℤ k (pos 0))) c)
    ∙ if_no _ _ _ t
  where
    above : (s : ℕ) → ltb_ℤ (pos (s + 1)) (pos 0) ≡ false
    above s = ground arith

setup_dns_async-Queried :
    (env : Env) (name : Text) (type s : ℕ) (cx : Cx)
    → env.dns_socket ≡ pos (s + 1)
    → env.dns_connect ≡ pos 0
    → ltb_ℤ (env.dns_send (dns_request env name type)) (pos 0) ≡ false
    → Queried env name type cx (setup_dns_async env name type cx)
unfolding setup_dns_async await_answer
setup_dns_async-Queried env name type s cx o c t =
    subst (Queried env name type cx)
      (sym (
        ap (λ r. await_answer env type r cx) (send_dns_request-sent env name type s o c t)
        ∙ if_no _ _ _ (ap (λ k. eqb_ℤ k (pos 0)) o ∙ not_zero s)))
      (refl, refl, refl)
  where
    not_zero : (s : ℕ) → eqb_ℤ (pos (s + 1)) (pos 0) ≡ false
    not_zero s = ground arith

-- Whatever the DNS cache holds: a CONNECT to a name that is no address, with asynchronous
-- resolution, where a socket (with a number above 0) is made and connected to the nameserver and
-- takes the request: the request for the name is sent, and its answer is waited for on that socket.
pub connect_fqdn-queries :
    (env : Env) (cx : Cx) (s : ℕ)
    → is_empty cx.req_str_addr ≡ false
    → env.is_cidr cx.req_str_addr ≡ false
    → cx.async_dns ≡ true
    → env.dns_socket ≡ pos (s + 1)
    → env.dns_connect ≡ pos 0
    → ltb_ℤ (env.dns_send (dns_request env cx.req_str_addr (query_type env cx))) (pos 0) ≡ false
    → (cx' : Cx) × (handle5_connect_fqdn env cx ≡ done (no_error, cx'))
      × (cx'.sent ≡ dns_request env cx.req_str_addr (query_type env cx) ∷ cx.sent)
      × (cx'.async_dns_query ≡ some env.dns_socket)
      × (cx'.state ≡ dns_query_sent)
unfolding handle5_connect_fqdn query_type
connect_fqdn-queries env cx s e c a o k t =
    let cx1 = record cx { nonlocal_dst_port = cx.req_port; nonlocal_src = true } in
    (
      setup_dns_async env cx.req_str_addr (query_type env cx1) cx1,
      if_no (is_empty cx.req_str_addr) _ _ e
          ∙ if_yes (is_empty (known_targets env cx1)) _ _
              (ap is_empty (known_targets-none env cx1 c))
          ∙ resolve_target-async env cx1 a,
      queried.0,
      queried.1,
      queried.2,
    )
  where
    queried : Queried env cx.req_str_addr (query_type env cx) cx (
        setup_dns_async env cx.req_str_addr
          (query_type env cx)
          (record cx { nonlocal_dst_port = cx.req_port; nonlocal_src = true }))
    queried = setup_dns_async-Queried env cx.req_str_addr (query_type env cx) s _ o k t
