-- ===== src/Lib.antt =====
-- A model of the parts of Smithproxy that decide what becomes of a connection: the policy rules and
-- their table, the SOCKS server, the set-up of a session, its routing and its authorization, the
-- identities behind it, what a proxy checks while data flows, and the inspection of DNS.
--
-- A new connection reaches MitmMasterProxy::on_left_new, or MitmUdpProxy::on_left_new if it is one
-- of datagrams (src/proxy/mitmproxy.cpp), which makes a proxy of two contexts and lets
-- src/proxy/proxymaker.cpp look its policy up, authorize its client, set its source address and
-- connect it. The policy is looked up by CfgFactory::policy_match (src/service/cfgapi/cfgapi.cpp),
-- which tries PolicyRule::match (src/policy/policy.cpp) of each rule, which asks the address
-- objects of src/policy/addrobj.cpp. A SOCKS connection is first read by a socksServerCX
-- (src/proxy/socks5/sockshostcx.cpp); its SocksProxy (src/proxy/socks5/socksproxy.cpp) gives the
-- policy's verdict and then hands it off to a proxy. DNS traffic of a session goes through a
-- DNS_Inspector (src/inspect/dnsinspector.cpp), which loads the packets, keeps responses in a
-- cache that FQDN addresses read, and answers requests from it. While data flows, a MitmProxy
-- looks its client's identity up in the tables of AuthFactory (src/policy/authfactory4.cpp,
-- authfactory6.cpp), asks a client without one to log in, stops a session whose server's
-- certificate fails its checks, and closes when a side does (src/proxy/mitmproxy.cpp).
--
-- The files:
--   Auth        src/shm/shmauth.hpp and .cpp: identities and the rows of the shared tables. Tables:
--               src/policy/authfactory4.cpp and authfactory6.cpp. Resolve: resolve_identity and
--               the choice of the sub-policy of mitmproxy.cpp. Lookup, Idle, Groups, Row, Kept,
--               Reached and Known hold the proofs
--   Base        shared types and lemmas: numbers and texts, int values, how a call ends (Outcome),
--               socle's buffer (Bytes; an interface with laws)
--   Cidr        the interface to the vendored libcidr
--   Dns         src/inspect/dns.hpp: the packets, and what callers read of them (Response).
--               src/inspect/dns.cpp: Names has construct_qname and skip_qname, Questions, Records
--               and Load have DNS_Packet::load, whose steps are a monad (Loader), and Request has
--               generate_dns_request. Reads, Tally, QuestionsRan, RecordsRan, AdditionalsRan,
--               Sections and Complete hold the proofs of load, Encoded, Decoded and RoundTrip those
--               of a request that is loaded
--   Fqdn        src/policy/inspectors.cpp; Labels and Parts hold the proofs
--   Inspect     src/inspect/dnsinspector.cpp: Requests, Responses, Update and Verdict hold the
--               operations, and Host has the loop over the inspectors of src/proxy/mitmhost.cpp;
--               Sound, Steady, Sustained, Unasked, Answered, Exchange, Written, Aged, Fresh and
--               Once hold the proofs
--   Mitm        the state of a proxy that mitmproxy.cpp works on. Pages: the pages that replace
--               content. Guard: handle_authentication, handle_com_response_ssl and
--               handle_requirements. Close: on_error and on_half_close. Ended, Blocked,
--               Unverified, Asked, Lost and Tokens hold the proofs
--   Policy      Address: src/policy/addrobj.cpp. Rule and Match: src/policy/policy.cpp. Table: the
--               policy list of cfgapi.cpp. Admission, Ports, Addresses, Deciding and Choice: their
--               specification and the proofs
--   Socks       src/proxy/socks5/sockshostcx.hpp and .cpp. Request, Target, Connect, Reply and
--               Events hold the operations; Wire, Progress, Safety, Input, Machine and Cache the
--               proofs
--   Session     Route: src/policy/profiles.cpp and route of proxymaker.cpp. Identity: the
--               authorization. Apply: policy_apply. Policy: policy of proxymaker.cpp. Accept:
--               the rest of it and on_left_new. Datagram: on_left_new for UDP. Handoff
--               and Message: socksproxy.cpp. Balance, Authorized, Marked, Admitted, Opened, Denied,
--               Alike, Verdicts, Passed and Steps hold the proofs
--   Examples    concrete contexts, rules, sessions, identities and proxies
--
-- Operations carry the names of the source's functions; a name such as match_from or pre_write_in
-- stands for a loop or a switch inside one. State is passed explicitly: a call on a SOCKS context
-- returns the context in an `Ended` result, which has it also after an exception; other calls that
-- may throw or run into undefined behaviour return an `Outcome`. The loops run over lists or count
-- down, as construct_qname its loopmax and update its ten rounds, but for the two question loops of
-- DNS_Packet::load: they have fuel, and a load that is starved of it is told apart from all others
-- and does not happen.
--
-- Locks and log lines are left out, apart from the pointers that log lines follow. Code outside
-- the repository (socle's com, buffer and shared tables, libcidr, the C and C++ libraries) and the
-- system's answers enter as fields of CidrLib, PolicyEnv, Env, SessionEnv, Surroundings, TableEnv
-- (with SharedMap and Inet), AuthEnv and MitmEnv (with the interfaces of the token tables and of
-- the whitelist). Theorems about code that reads buffers, caches or addresses have the documented
-- laws of these (IsBuffers, IsCache, IsInet) as hypotheses. Session takes the resolution of an
-- identity and the groups of an address as fields of SessionEnv, and does not depend on Auth.
--
-- Not modelled: the profiles that policy_apply and apply_id_policies set on contexts beside the
-- authentication profile (but for the null pointers of the DNS profile's branch), the copying of
-- bytes and the replacement of content, the text of the page on a certificate's failure, filters,
-- the sockets of the DNS resolver, the inspection of traffic other than DNS, the configuration
-- file, the command line and the HTTP interface.
pub mod Auth
pub mod Base
pub mod Cidr
pub mod Dns
pub mod Fqdn
pub mod Inspect
pub mod Examples
pub mod Mitm
pub mod Policy
pub mod Session
pub mod Socks
