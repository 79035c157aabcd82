-- ===== src/Session/Alike.antt =====
-- MitmUdpProxy::on_left_new against MitmMasterProxy::on_left_new, both of src/proxy/mitmproxy.cpp.
use std.Path.{fun_ext}
use smithproxy.Base.{
  Bool, true, false, List, Option, none, some, Text, same_text, same_text_iff, ◌≡◌, refl, ap, sym,
  ◌∙◌, ◌≢◌, Bool-cases, inl, inr, if_yes,
}
use smithproxy.Base.Int.{pos}
use smithproxy.Base.Outcome.{◌>>=◌}
use smithproxy.Session.{Proxy, Store, SessionEnv}
use smithproxy.Session.Policy.{policy}
use smithproxy.Session.Accept.{
  Accepted, new_target, make, admit, enforce, made, magic_target, from_source, on_left_new,
}
use smithproxy.Session.Datagram.{from_udp_source, admit_udp, enforce_udp, made_udp, udp_on_left_new}

module _ (env : SessionEnv) (proxies : List Proxy) (a : Accepted) (source : Text × Text)
    (resolved : a.source ≡ some source) where
  enforce_udp-enforce :
      (r : Store env.policy_env.lib.Cidr × Proxy × Bool)
      → enforce_udp env proxies a r ≡ enforce env proxies a.dst_port source r
  unfolding enforce_udp enforce admit_udp admit from_udp_source
  enforce_udp-enforce (st, p, false) = refl
  enforce_udp-enforce (st, p, true) = rw resolved refl

  made_udp-made :
      (st : Store env.policy_env.lib.Cidr) (q : Option Proxy)
      → made_udp env st proxies a q ≡ made env st proxies a.dst_port false source q
  unfolding made_udp made
  made_udp-made st none = refl
  made_udp-made st (some p) = ap (λ f. policy env st p false >>= f) (fun_ext enforce_udp-enforce)

module _ (env : SessionEnv) where
  -- Over UDP a session is set up as over TCP, where both its destination and its source are
  -- resolved and the destination is not the magic address: MitmUdpProxy::on_left_new then ends as
  -- MitmMasterProxy::on_left_new does, with the same configuration and the same proxies, though it
  -- asks for the source only after the policy and the authorization.
  pub udp_on_left_new-on_left_new :
      (st : Store env.policy_env.lib.Cidr) (proxies : List Proxy) (a : Accepted)
      (source : Text × Text)
      → a.nonlocal_dst_resolved ≡ true
      → a.source ≡ some source
      → a.dst_host ≢ env.tenant_magic_ip
      → udp_on_left_new env st proxies a ≡ on_left_new env st proxies a
  unfolding udp_on_left_new on_left_new from_source magic_target
  udp_on_left_new-on_left_new st proxies a source d s m =
      made_udp-made env proxies a source s st _
      ∙ sym (if_yes a.nonlocal_dst_resolved _ _ d ∙ rw s (sourced not_magic))
    where
      not_magic : same_text a.dst_host env.tenant_magic_ip ≡ false
      not_magic = elim (Bool-cases (same_text a.dst_host env.tenant_magic_ip)) [
        | inl e ↦ absurd (m ((same_text_iff a.dst_host env.tenant_magic_ip).0 e))
        | inr e ↦ e
      ]

      sourced :
          same_text a.dst_host env.tenant_magic_ip ≡ false
          → from_source env st proxies a (some source)
            ≡ made env st proxies a.dst_port false source (
                make a.cx.l3_proto
                  (some a.cx)
                  (some (new_target a a.dst_host (env.format_d (pos a.dst_port)))))
      sourced e = rw e refl
