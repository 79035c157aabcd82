-- ===== src/Session/Route.antt =====
-- The balancing of src/policy/profiles.cpp, and get_dnat_target and route of
-- src/proxy/proxymaker.cpp.
use smithproxy.Base.{
  ℕ, ◌+◌, ◌%◌, ◌^◌, Bool, true, false, List, [], ◌∷◌, ◌++◌, Option, none, some, Text, map, ◌==◌,
  ltb, length, get_elem?, if◌then◌else◌,
}
use smithproxy.Base.Int.{ℤ, pos, ltb_ℤ}
use smithproxy.Base.Outcome.{Outcome, value, undefined, ◌>>=◌}
use smithproxy.Session.{
  MitmCx, Proxy, LbMethod, lb_rr, lb_l3, lb_l4, Routing, SessionEnv, first_left, first_right,
}

abbrev pub family_v4 : ℕ
family_v4 = 2

abbrev pub family_v6 : ℕ
family_v6 = 10

abbrev pub refresh_interval : ℕ
refresh_interval = 5

-- `not ip.empty()` and `not port.empty()`.
unfoldable pub text_if_any : Text → Option Text
text_if_any [] = none
text_if_any (x ∷ xs) = some (x ∷ xs)

abbrev pub host_of : Option MitmCx → Text
host_of none = []
host_of (some cx) = cx.host

abbrev pub port_of : Option MitmCx → Text
port_of none = []
port_of (some cx) = cx.port

module _ (env : SessionEnv) where
  unfoldable pub expand_candidates : Routing → Routing
  expand_candidates r =
      if ltb (r.last_refresh + refresh_interval) env.now
      then record r {
        last_refresh = env.now;
        candidates_v4 = env.expand_to_cidr r.dnat_addresses family_v4;
        candidates_v6 = env.expand_to_cidr r.dnat_addresses family_v6;
      }
      else r

  unfoldable pub count_up : Routing → Routing
  count_up r = record r { rr_counter = (r.rr_counter + 1) % 2 ^ 64 }

  unfoldable pub update : Routing → Routing
  update r = count_up (expand_candidates r)

  unfoldable pub lb_candidates : Routing → ℕ → List Text
  lb_candidates r family = if family == family_v6 then r.candidates_v6 else r.candidates_v4

  unfoldable pub lb_index_rr : Routing → ℕ → ℕ
  lb_index_rr r sz = if sz == 0 then 0 else r.rr_counter % sz

  unfoldable pub crc32_proxy_key : Proxy → Bool → ℕ
  crc32_proxy_key p add_port = env.crc32 (
      host_of (first_left p)
      ++ host_of (first_right p)
      ++ (if add_port then port_of (first_right p) else []))

  unfoldable pub lb_index_l3 : Proxy → ℕ → ℕ
  lb_index_l3 p sz = if sz == 0 then 0 else crc32_proxy_key p false % sz

  -- The second argument of the key is the proxy's pointer, which is not null.
  unfoldable pub lb_index_l4 : Proxy → ℕ → ℕ
  lb_index_l4 p sz = if sz == 0 then 0 else crc32_proxy_key p true % sz

  unfoldable pub lb_index : LbMethod → Routing → Proxy → ℕ → ℕ
  lb_index lb_rr r p sz = lb_index_rr r sz
  lb_index lb_l3 r p sz = lb_index_l3 p sz
  lb_index lb_l4 r p sz = lb_index_l4 p sz

  -- `candidates[index]` is not checked.
  abbrev pub candidate_at : List Text → ℕ → Outcome Text
  candidate_at cs n = elim (get_elem? cs n) [ none ↦ undefined | some c ↦ value c ]

  abbrev pub port_text : Option (ℤ × ℤ) → Text
  port_text none = []
  port_text (some (first, second)) = env.format_d first

  unfoldable pub dnat_port : List Text → Text
  dnat_port [] = []
  dnat_port (name ∷ names) = port_text (env.lookup_port name)

  unfoldable pub target_of : List Text → Routing → Proxy → Outcome (Option Text × Option Text)
  target_of [] r p = value (none, none)
  target_of (c ∷ cs) r p = do
    ip ← candidate_at (c ∷ cs) (lb_index r.dnat_lb_method r p (length (c ∷ cs)))
    value (text_if_any ip, text_if_any (dnat_port r.dnat_ports))

  unfoldable pub get_dnat_target : Proxy → Routing → Outcome (Option Text × Option Text)
  get_dnat_target p r = target_of (lb_candidates r p.com_l3_proto) r p

  abbrev pub set_host : Option Text → MitmCx → MitmCx
  set_host none cx = cx
  set_host (some h) cx = record cx { host = h }

  -- A port that reads as zero changes nothing.
  abbrev pub set_port : Option Text → MitmCx → MitmCx
  set_port none cx = cx
  set_port (some t) cx =
      if ltb_ℤ (pos 0) (env.policy_env.safe_val t) then record cx { port = t } else cx

  unfoldable pub redirect : Option Text → Option Text → Proxy → Proxy
  redirect ip port p = record p { rs = map (λ cx. set_port port (set_host ip cx)) p.rs }

  unfoldable pub route_to : Option Text × Option Text → Proxy → Proxy × Bool
  route_to (none, none) p = (p, false)
  route_to (none, some t) p = (redirect none (some t) p, true)
  route_to (some h, port) p = (redirect (some h) port p, true)

  -- The profile with its counter moved on, the proxy with its right side redirected, and whether
  -- there was a target.
  unfoldable pub route : Proxy → Routing → Outcome (Routing × Proxy × Bool)
  route p r = do
    t ← get_dnat_target p (update r)
    let (p', ok) = route_to t p in value (update r, p', ok)
