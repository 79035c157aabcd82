-- ===== src/Policy.antt =====
-- src/policy/addrobj.hpp, addrobj.cpp, policy.hpp, policy.cpp and the policy table of
-- src/service/cfgapi/cfgapi.cpp. Log lines and locks are left out; a session is one thread.
pub mod Address
pub mod Rule
pub mod Match
pub mod Table
pub mod Admission
pub mod Ports
pub mod Addresses
pub mod Deciding
pub mod Choice
