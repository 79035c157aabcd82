-- ===== src/Session/Accept.antt =====
-- src/proxy/proxymaker.cpp with MitmMasterProxy::on_left_new of src/proxy/mitmproxy.cpp: from an
-- accepted connection to a connected proxy.
use smithproxy.Base.{
  ℕ, ◌+◌, ◌-◌, ◌%◌, ◌^◌, Bool, true, false, not, ◌&&◌, List, [], ◌∷◌, Option, none, some, Text,
  ◌==◌, same_text, if◌then◌else◌,
}
use smithproxy.Base.Int.{ℤ, pos, negsuc, minus_one, eqb_ℤ}
use smithproxy.Base.Outcome.{
  Outcome, value, throws, undefined, out_of_range, logic_error, invalid_argument, ◌>>=◌,
}
use smithproxy.Dns.Response.{ascii}
use smithproxy.Policy.Rule.{Rule, nat_none}
use smithproxy.Policy.Table.{lookup_policy}
use smithproxy.Session.{
  MitmCx, Proxy, Store, SessionEnv, policy_implicit_pass, first_left, first_right, at_first_right,
  new_proxy,
}
use smithproxy.Session.Identity.{authorize, is_replaceable}
use smithproxy.Session.Policy.{policy}

-- What on_left_new reads of the accepted context's com(): whether its destination is resolved, the
-- resolved source, the destination, and the com of its slaves.
pub record Accepted : Type 0 where
  pub cx : MitmCx
  pub nonlocal_dst_resolved : Bool
  pub source : Option (Text × Text)
  pub dst_host : Text
  pub dst_port : ℕ
  pub slave_l4_proto : ℕ
  pub slave_bypass : Option Bool

-- A MitmHostCX for a host and a port, over a slave of the accepted com.
abbrev pub new_target : Accepted → Text → Text → MitmCx
new_target a host port = record {
  host = host;
  port = port;
  l3_proto = 0;
  l4_proto = a.slave_l4_proto;
  bypass = a.slave_bypass;
  waiting_for_peercom = false;
  matched_policy = minus_one;
  nonlocal_src = false;
  nonlocal_src_host = [];
  nonlocal_src_port = 0;
}

-- `make`: null contexts give no proxy; a context that waits for its peer's com is delayed.
unfoldable pub make : ℕ → Option MitmCx → Option MitmCx → Option Proxy
make l3 none right = none
make l3 (some left) none = none
make l3 (some left) (some right) = some (record (new_proxy l3) {
  ls = if left.waiting_for_peercom then [] else left ∷ [];
  lda = if left.waiting_for_peercom then left ∷ [] else [];
  rs = record right { l3_proto = left.l3_proto } ∷ [];
})

module _ (env : SessionEnv) where
  abbrev pub Rules : Type 0
  Rules = List (Rule env.policy_env.lib.Cidr)

  unfoldable pub to_magic : ℕ → Outcome (Text × ℕ)
  to_magic target_port =
      if target_port == 65000
      then (do
        t ← env.try_down_cast_u16 env.tenant_index
        value (ascii "127.0.0.1", (65000 + t) % 2 ^ 16))
      else (do
        n ← env.stoi (if target_port == 443 then env.portal_port_https else env.portal_port_http)
        port ← env.try_down_cast_u16 n
        value (ascii "127.0.0.1", port))

  -- vector::at of the policy list, whose index is an unsigned number.
  abbrev pub rule_at : Rules → ℤ → Outcome (Rule env.policy_env.lib.Cidr)
  rule_at rules n = elim (lookup_policy rules n) [ none ↦ throws out_of_range | some r ↦ value r ]

  abbrev pub low16 : ℤ → ℕ
  low16 (pos n) = n % 2 ^ 16
  low16 (negsuc n) = 65535 - n % 2 ^ 16

  -- The two handlers of setup_snat.
  abbrev pub snat_caught : Proxy → Outcome (Proxy × Bool) → Outcome (Proxy × Bool)
  snat_caught p (value r) = value r
  snat_caught p (throws out_of_range) = value (p, false)
  snat_caught p (throws invalid_argument) = value (p, false)
  snat_caught p (throws logic_error) = throws logic_error
  snat_caught p undefined = undefined

  abbrev pub keep_source : Text → ℕ → MitmCx → MitmCx
  keep_source host port cx = record cx {
    nonlocal_src = true;
    nonlocal_src_host = host;
    nonlocal_src_port = port;
  }

  unfoldable pub no_nat : Rules → Proxy → Text → Text → Outcome (Proxy × Bool)
  no_nat rules p source_host source_port = do
    rule ← rule_at rules p.matched_policy
    if eqb_ℤ rule.nat nat_none
        then (do
          n ← env.stoi source_port
          value (at_first_right (keep_source source_host (low16 n)) p, true))
        else value (p, true)

  unfoldable pub snat_both :
      Rules → Proxy → Text → Text → Option MitmCx → Option MitmCx → Outcome (Proxy × Bool)
  snat_both rules p host port none right = value (p, false)
  snat_both rules p host port (some left) none = value (p, false)
  snat_both rules p host port (some left) (some right) =
      if eqb_ℤ p.matched_policy policy_implicit_pass
      then value (p, true)
      else snat_caught p (no_nat rules p host port)

  unfoldable pub setup_snat : Rules → Proxy → Text → Text → Outcome (Proxy × Bool)
  setup_snat rules p host port = snat_both rules p host port (first_left p) (first_right p)

  unfoldable pub connect_both :
      List Proxy → Proxy → Option MitmCx → Option MitmCx → List Proxy × Bool
  connect_both proxies p none right = (proxies, false)
  connect_both proxies p (some left) none = (proxies, false)
  connect_both proxies p (some left) (some right) = (record p { connected = true } ∷ proxies, true)

  -- The owner is there and has a com; it takes the proxy over once its right side is connected.
  unfoldable pub connect : List Proxy → Proxy → List Proxy × Bool
  connect proxies p = connect_both proxies p (first_left p) (first_right p)

  unfoldable pub magic_target : Accepted → Outcome (Text × ℕ)
  magic_target a =
      if same_text a.dst_host env.tenant_magic_ip
      then to_magic a.dst_port
      else value (a.dst_host, a.dst_port)

  -- From the authorization on: a port that is not replaceable ends here if it fails.
  unfoldable pub admit :
      Store env.policy_env.lib.Cidr
      → List Proxy
      → ℕ
      → Text × Text
      → Proxy × Bool
      → Outcome (Store env.policy_env.lib.Cidr × List Proxy)
  admit st proxies port (host, source_port) (p, authorized) =
      if not authorized && not (is_replaceable port) then value (st, proxies) else do
        (p', ok) ← setup_snat st.rules p host source_port
        value (st, if ok then (connect proxies p').0 else proxies)

  unfoldable pub enforce :
      List Proxy
      → ℕ
      → Text × Text
      → Store env.policy_env.lib.Cidr × Proxy × Bool
      → Outcome (Store env.policy_env.lib.Cidr × List Proxy)
  enforce proxies port source (st, p, false) = value (st, proxies)
  enforce proxies port source (st, p, true) =
      admit st proxies port source (authorize env st.rules p)

  unfoldable pub made :
      Store env.policy_env.lib.Cidr
      → List Proxy
      → ℕ
      → Bool
      → Text × Text
      → Option Proxy
      → Outcome (Store env.policy_env.lib.Cidr × List Proxy)
  made st proxies port magic source none = undefined
  made st proxies port magic source (some p) = do
    r ← policy env st p magic
    enforce proxies port source r

  unfoldable pub from_source :
      Store env.policy_env.lib.Cidr
      → List Proxy
      → Accepted
      → Option (Text × Text)
      → Outcome (Store env.policy_env.lib.Cidr × List Proxy)
  from_source st proxies a none = value (st, proxies)
  from_source st proxies a (some source) = do
    (host, port) ← magic_target a
    made st proxies port (same_text a.dst_host env.tenant_magic_ip) source
        (make a.cx.l3_proto (some a.cx) (some (new_target a host (env.format_d (pos port)))))

  -- The configuration's store and the proxies of the master, before and after.
  unfoldable pub on_left_new :
      Store env.policy_env.lib.Cidr
      → List Proxy
      → Accepted
      → Outcome (Store env.policy_env.lib.Cidr × List Proxy)
  on_left_new st proxies a =
      if a.nonlocal_dst_resolved then from_source st proxies a a.source else value (st, proxies)
