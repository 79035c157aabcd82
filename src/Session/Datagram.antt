-- ===== src/Session/Datagram.antt =====
-- MitmUdpProxy::on_left_new of src/proxy/mitmproxy.cpp: a new session over UDP. Its source is
-- resolved after the policy and the authorization, and no address is the portal's.
use smithproxy.Base.{Bool, true, false, not, ◌&&◌, List, Option, none, some, Text, if◌then◌else◌}
use smithproxy.Base.Int.{pos}
use smithproxy.Base.Outcome.{Outcome, value, undefined, ◌>>=◌}
use smithproxy.Session.{Proxy, Store, SessionEnv}
use smithproxy.Session.Identity.{authorize, is_replaceable}
use smithproxy.Session.Policy.{policy}
use smithproxy.Session.Accept.{Accepted, new_target, make, setup_snat, connect}

module _ (env : SessionEnv) where
  -- Without a source the accepted context is deleted, which the proxy that is given up has too;
  -- what becomes of it there is the socle library's.
  unfoldable pub from_udp_source :
      Store env.policy_env.lib.Cidr
      → List Proxy
      → Proxy
      → Option (Text × Text)
      → Outcome (Store env.policy_env.lib.Cidr × List Proxy)
  from_udp_source st proxies p none = value (st, proxies)
  from_udp_source st proxies p (some (host, source_port)) = do
    (p', ok) ← setup_snat env st.rules p host source_port
    value (st, if ok then (connect env proxies p').0 else proxies)

  unfoldable pub admit_udp :
      Store env.policy_env.lib.Cidr
      → List Proxy
      → Accepted
      → Proxy × Bool
      → Outcome (Store env.policy_env.lib.Cidr × List Proxy)
  admit_udp st proxies a (p, authorized) =
      if not authorized && not (is_replaceable a.dst_port)
      then value (st, proxies)
      else from_udp_source st proxies p a.source

  unfoldable pub enforce_udp :
      List Proxy
      → Accepted
      → Store env.policy_env.lib.Cidr × Proxy × Bool
      → Outcome (Store env.policy_env.lib.Cidr × List Proxy)
  enforce_udp proxies a (st, p, false) = value (st, proxies)
  enforce_udp proxies a (st, p, true) = admit_udp st proxies a (authorize env st.rules p)

  unfoldable pub made_udp :
      Store env.policy_env.lib.Cidr
      → List Proxy
      → Accepted
      → Option Proxy
      → Outcome (Store env.policy_env.lib.Cidr × List Proxy)
  made_udp st proxies a none = undefined
  made_udp st proxies a (some p) = do r ← policy env st p false; enforce_udp proxies a r

  -- The configuration's store and the proxies of the master, before and after.
  unfoldable pub udp_on_left_new :
      Store env.policy_env.lib.Cidr
      → List Proxy
      → Accepted
      → Outcome (Store env.policy_env.lib.Cidr × List Proxy)
  udp_on_left_new st proxies a = made_udp st proxies a (
      make a.cx.l3_proto (some a.cx)
        (some (new_target a a.dst_host (env.format_d (pos a.dst_port)))))
