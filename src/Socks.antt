-- ===== src/Socks.antt =====
-- src/proxy/socks5/sockshostcx.hpp: the state of the SOCKS server context (socksServerCX), and how
-- a call on it ends. Log lines and locks are left out; the contexts of one worker run one at a time.
pub mod Request
pub mod Target
pub mod Connect
pub mod Reply
pub mod Events
pub mod Wire
pub mod Progress
pub mod Safety
pub mod Input
pub mod Machine
pub mod Cache
use smithproxy.Base.Int.{ℤ}
use smithproxy.Base.{ℕ, ◌≡◌, refl, Bool, List, Option, Text}
use smithproxy.Base.Outcome.{Outcome, Exception, value, throws}
use smithproxy.Base.Outcome
use smithproxy.Base.Bytes.{Buffers}
use smithproxy.Dns.{Packet}

pub data State : Type 0 where
  init hello_sent wait_request req_received wait_policy policy_received : State
  reqres_sent dns_query_sent dns_resp_recv dns_resp_failed handoff zombie : State

pub data RequestError : Type 0 where
  no_error unsupported_version unsupported_atype unsupported_method malformed_data : RequestError
  unauthorized : RequestError

pub data Verdict : Type 0 where
  pending accept reject : Verdict

abbrev pub cmd_connect : ℕ
cmd_connect = 1

abbrev pub cmd_udp_associate : ℕ
cmd_udp_associate = 3

abbrev pub atype_ipv4 : ℕ
atype_ipv4 = 1

abbrev pub atype_fqdn : ℕ
atype_fqdn = 3

abbrev pub atype_ipv6 : ℕ
atype_ipv6 = 4

abbrev pub af_inet : ℕ
af_inet = 2

abbrev pub af_inet6 : ℕ
af_inet6 = 10

-- The sockaddr of an AddressInfo: unset, IPv4 (s_addr as a number in the host's order of its
-- bytes), or IPv6.
pub data SockAddr : Type 0 where
  unset : SockAddr
  v4 : ℕ → SockAddr
  v6 : List ℕ → SockAddr

-- `as_v4()->sin_addr.s_addr`: on an IPv6 address it reads sin6_flowinfo, which is left at 0.
abbrev pub s_addr : SockAddr → ℕ
s_addr unset = 0
s_addr (v4 a) = a
s_addr (v6 bytes) = 0

-- The classes of `com` that a target gets.
pub data ComKind : Type 0 where
  ssl_com udp_com tcp_com : ComKind

-- The context prepared for the client's side, and the one for the server's.
pub record LeftCx : Type 0 where
  pub left_com : ComKind
  pub left_dst_host : Text
  pub left_dst_port : ℕ
  pub left_readbuf : List ℕ

pub record RightCx : Type 0 where
  pub right_host : Text
  pub right_port : ℕ
  pub src_host : Text
  pub src_port : ℕ

-- socksServerCX::UDP
pub record Udp : Type 0 where
  pub my_assoc : Text
  pub my_allowed_target : Text

-- The context, with the fields of its base classes and of `com()` that the code uses. `clients` is
-- the process-wide table of UDP associations, contexts named by number; `shut` lists the other
-- contexts on which error(true) was called. `async_dns_query` is the socket that
-- its query object waits on, `sent` holds the DNS requests that went out, the last one first, and
-- `stored` holds the responses that went to DNS_Inspector::store.
pub record Cx : Type 0 where
  pub self : ℕ
  pub host : Text
  pub port : Text
  pub l4_proto : ℕ
  pub l3_proto : ℕ
  pub readbuf : List ℕ
  pub writebuf : List ℕ
  pub in_error : Bool
  pub state : State
  pub socks_error : RequestError
  pub verdict : Verdict
  pub version : ℕ
  pub req_cmd : ℕ
  pub req_atype : ℕ
  pub req_addr : SockAddr
  pub req_str_addr : Text
  pub req_port : ℕ
  pub req_hdr_size : ℕ
  pub nonlocal_dst_host : Text
  pub nonlocal_dst_port : ℕ
  pub nonlocal_src : Bool
  pub is_ssl : Bool
  pub left : Option LeftCx
  pub right : Option RightCx
  pub udp : Option Udp
  pub clients : List (Text × ℕ)
  pub shut : List ℕ
  pub tested_dns_a : Bool
  pub tested_dns_aaaa : Bool
  pub async_dns : Bool
  pub waiting_for_peercom : Bool
  pub read_waiting_for_peercom : Bool
  pub write_monitored : Bool
  pub async_dns_query : Option ℤ
  pub sent : List (List ℕ)
  pub stored : List Packet

-- A call on the context changes it, also where it ends by an exception.
pub data Ended (A : Type 0) : Type 0 where
  done : A × Cx → Ended A
  raised : Exception → Cx → Ended A
  undefined : Ended A

infixl 5 ◌>>=◌
abbrev pub ◌>>=◌ : {A B : Type 0} → Ended A → (A × Cx → Ended B) → Ended B
done r >>= f = f r
raised e cx >>= f = raised e cx
undefined >>= f = undefined

-- A call that only reads.
abbrev pub reading : {A : Type 0} → Outcome A → Cx → Ended A
reading (value a) cx = done (a, cx)
reading (throws e) cx = raised e cx
reading Outcome.undefined cx = undefined

-- What the context calls outside this repository, and what it learns from the system.
pub record Env : Type 0 where
  pub buffers : Buffers
  -- string_format("%s:%s", …) and string_format("%s:%d", …)
  pub key_of_texts : Text → Text → Text
  pub key_of_port : Text → ℕ → Text
  -- AddressInfo::unpack, inet_ntoa and inet_ntop
  pub v4_text : ℕ → Text
  pub v6_text : List ℕ → Text
  -- resolve_socket_src of this context's socket, and std::stoi of a port
  pub source_host : Text
  pub source_port : Text
  pub stoi : Text → Outcome ℕ
  -- cidr_from_str(s) != nullptr
  pub is_cidr : Text → Bool
  pub dns_cache : Text → Option Packet
  pub now : ℕ
  -- the number that choose_server_ip makes of two pointers and the time
  pub semi_random : ℕ
  -- for send_dns_request: the random id, what buffer::size(n) makes of its new buffer, and what
  -- ::socket, ::connect and ::send answer
  pub dns_id : ℕ
  pub dns_buffer : ℕ → List ℕ
  pub dns_socket : ℤ
  pub dns_connect : ℤ
  pub dns_send : List ℕ → ℤ
  -- the answer of the blocking resolve_dns_s
  pub blocking_answer : Option Packet
  -- the settings
  pub mixed_ip_versions : Bool
  pub prefer_ipv6 : Bool
