-- ===== src/Cidr.antt =====
-- The interface to the vendored library src/ext/libcidr, which is not modelled: the calls that
-- policy/addrobj.hpp, policy/policy.cpp and inspect/dns.hpp make. A CIDR pointer is an `Option`,
-- `none` for nullptr.
use smithproxy.Base.{ℕ, List, Option, Text}
use smithproxy.Base.Int.{ℤ}

pub record CidrLib : Type 1 where
  pub Cidr : Type 0
  pub cidr_from_str : Text → Option Cidr
  pub cidr_from_inaddr : ℕ → Option Cidr
  pub cidr_from_in6addr : List ℕ → Option Cidr
  pub cidr_contains : Option Cidr → Option Cidr → ℤ
  pub proto : Cidr → ℕ
  pub cidr_ipv4 : ℕ
  pub cidr_ipv6 : ℕ
