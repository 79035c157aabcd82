-- ===== src/Policy/Deciding.antt =====
-- PolicyRule::match of src/policy/policy.cpp decides what the rule admits.
use smithproxy.Base.{
  ◌≡◌, ◌⊎◌, inl, inr, Bool, true, false, List, Option, if◌then◌else◌, All, Bool-cases, not_both, ap,
  ◌∙◌,
}
use smithproxy.Base.Outcome.{Outcome, value, ◌>>=◌}
use smithproxy.Base.Decides.{Decides, holds, fails, Decides-and_then}
use smithproxy.Policy.Rule.{Rule, HostCx}
use smithproxy.Policy.Match.{PolicyEnv, tests_lr, match_lr, count_match}
use smithproxy.Policy.Admission.{
  HasProto, KnownProto, Readable, AddrCovers, RangeCovers, SideCovers, Admits,
}
use smithproxy.Policy.Ports.{range_vecx_decides, proto_lr_decides}
use smithproxy.Policy.Addresses.{addr_vecx_decides, Readable-ranges}

module _ (env : PolicyEnv) where
  open env use {lib, dns_cache, safe_val}
  open lib use {Cidr, cidr_from_str, cidr_contains}

  pub tests_lr_decides :
      (rule : Rule Cidr) (l r : List (Option HostCx))
      → All KnownProto l
      → All (Readable env) l
      → All (Readable env) r
      → Decides (tests_lr env rule l r) (
          ((rule.proto ≡ 0) ⊎ All (HasProto rule.proto) l)
          × (SideCovers (AddrCovers env rule.src) l
              × (SideCovers (RangeCovers env rule.src_ports) l
                  × (SideCovers (AddrCovers env rule.dst) r
                      × SideCovers (RangeCovers env rule.dst_ports) r))))
  unfolding tests_lr
  tests_lr_decides rule l r hp hl hr = Decides-and_then (proto_lr_decides env rule.proto l hp) (
      Decides-and_then (addr_vecx_decides env rule.src l hl) (
        Decides-and_then
          (range_vecx_decides safe_val (RangeCovers env rule.src_ports) rule.src_ports l
            (Readable-ranges env rule.src_ports l hl))
          (Decides-and_then (addr_vecx_decides env rule.dst r hr) (
            range_vecx_decides safe_val (RangeCovers env rule.dst_ports) rule.dst_ports r
              (Readable-ranges env rule.dst_ports r hr)))))

  -- On contexts whose protocols and addresses are known a rule matches if and only if it admits
  -- them, and it is counted (in 32 bits) if and only if it matches; otherwise it is unchanged.
  pub match_lr-Admits :
      (rule : Rule Cidr) (l r : List (Option HostCx))
      → All KnownProto l
      → All (Readable env) l
      → All (Readable env) r
      → (Admits env rule l r × (match_lr env rule l r ≡ value (count_match rule, true)))
        ⊎ ((¬ Admits env rule l r) × (match_lr env rule l r ≡ value (rule, false)))
  unfolding match_lr
  match_lr-Admits rule l r hp hl hr = elim (Bool-cases rule.is_disabled) [
    | inl off ↦
        inr
          ((λ a. not_both off a.enabled), ap (λ b. if b then value (rule, false) else counted) off)
    | inr on ↦ elim (tests_lr_decides rule l r hp hl hr) [
      | holds e (p, (sa, (sp, (da, dp)))) ↦ inl (
        record {
          enabled = on;
          same_proto = p;
          from_address = sa;
          from_port = sp;
          to_address = da;
          to_port = dp;
        },
        ap (λ b. if b then value (rule, false) else counted) on ∙ ap after e,
      )
      | fails e n ↦ inr (
        (λ a. n (a.same_proto, (a.from_address, (a.from_port, (a.to_address, a.to_port))))),
        ap (λ b. if b then value (rule, false) else counted) on ∙ ap after e,
      )
    ]
  ]
    where
      after : Outcome Bool → Outcome (Rule Cidr × Bool)
      after m = m >>= λ b. value (if b then (count_match rule, true) else (rule, false))

      counted : Outcome (Rule Cidr × Bool)
      counted = after (tests_lr env rule l r)
