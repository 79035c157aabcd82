-- ===== src/Policy/Match.antt =====
-- The two overloads of PolicyRule::match in src/policy/policy.cpp.
use smithproxy.Base.{
  ℕ, ◌+◌, ◌%◌, ◌^◌, Bool, true, false, List, Option, none, some, Text, ◌==◌, if◌then◌else◌,
}
use smithproxy.Base.Int.{ℤ}
use smithproxy.Base.Outcome.{Outcome, value, ◌>>=◌, ◌and_then◌}
use smithproxy.Cidr.{CidrLib}
use smithproxy.Dns.{Packet}
use smithproxy.Policy.Rule.{
  Rule, HostCx, ProxySides, match_proto_vecx, match_addrgrp_vecx, match_rangegrp_vecx,
}

-- What the match calls outside this repository's own code.
pub record PolicyEnv : Type 1 where
  pub lib : CidrLib
  pub dns_cache : Text → Option Packet
  pub safe_val : Text → ℤ

-- The matched counter is an `unsigned int`.
unfoldable pub count_match : {Cidr : Type 0} → Rule Cidr → Rule Cidr
count_match rule = record rule { cnt_matches = (rule.cnt_matches + 1) % 2 ^ 32 }

module _ (env : PolicyEnv) where
  open env use {lib, dns_cache, safe_val}

  -- Protocol 0 stands for any.
  unfoldable pub match_proto_lr : ℕ → List (Option HostCx) → Outcome Bool
  match_proto_lr p l = if p == 0 then value true else match_proto_vecx p l

  unfoldable pub tests_lr :
      Rule lib.Cidr → List (Option HostCx) → List (Option HostCx) → Outcome Bool
  tests_lr rule l r =
      match_proto_lr rule.proto l
      and_then match_addrgrp_vecx lib dns_cache rule.src l
      and_then match_rangegrp_vecx safe_val rule.src_ports l
      and_then match_addrgrp_vecx lib dns_cache rule.dst r
      and_then match_rangegrp_vecx safe_val rule.dst_ports r

  -- `match` over the contexts of both sides: the rule, counted if it matched, and the answer.
  unfoldable pub match_lr :
      Rule lib.Cidr → List (Option HostCx) → List (Option HostCx) → Outcome (Rule lib.Cidr × Bool)
  match_lr rule l r =
      if rule.is_disabled
      then value (rule, false)
      else do m ← tests_lr rule l r; value (if m then (count_match rule, true) else (rule, false))

  unfoldable pub tests_proxy : Rule lib.Cidr → ProxySides → Outcome Bool
  tests_proxy rule p =
      (if rule.proto == 0
        then value true
        else match_proto_vecx rule.proto p.ls and_then match_proto_vecx rule.proto p.lda)
      and_then (match_addrgrp_vecx lib dns_cache rule.src p.ls
          and_then match_addrgrp_vecx lib dns_cache rule.src p.lda)
      and_then (match_rangegrp_vecx safe_val rule.src_ports p.ls
          and_then match_rangegrp_vecx safe_val rule.src_ports p.lda)
      and_then (match_addrgrp_vecx lib dns_cache rule.dst p.rs
          and_then match_addrgrp_vecx lib dns_cache rule.dst p.rda)
      and_then match_rangegrp_vecx safe_val rule.dst_ports p.rs
      and_then match_rangegrp_vecx safe_val rule.dst_ports p.rda

  unfoldable pub match_sides : Rule lib.Cidr → Option ProxySides → Outcome (Rule lib.Cidr × Bool)
  match_sides rule none = value (rule, false)
  match_sides rule (some p) = do
    m ← tests_proxy rule p
    value (if m then (count_match rule, true) else (rule, false))

  -- `match` over a proxy; a null proxy never matches.
  unfoldable pub match_proxy : Rule lib.Cidr → Option ProxySides → Outcome (Rule lib.Cidr × Bool)
  match_proxy rule p = if rule.is_disabled then value (rule, false) else match_sides rule p
