-- ===== src/Socks/Request.antt =====
-- src/proxy/socks5/sockshostcx.cpp: socks5_parse_request and the UDP authorisation that it makes.
use smithproxy.Base.{
  ℕ, ◌+◌, Bool, true, false, List, [], ◌∷◌, Option, none, some, Text, ◌==◌, leb, if◌then◌else◌,
  length, same_text,
}
use smithproxy.Base.Bytes.{swap16, raw_at}
use smithproxy.Policy.Rule.{sock_dgram}
use smithproxy.Socks.{
  Cx, Env, Udp, Ended, done, ◌>>=◌, reading, RequestError, no_error, unsupported_atype,
  malformed_data, unauthorized, req_received, unset, v4, v6, atype_ipv4, atype_fqdn, atype_ipv6,
}

-- std::map::find over the associations.
unfoldable pub find_client : Text → List (Text × ℕ) → Option ℕ
find_client k [] = none
find_client k ((j, c) ∷ m) = if same_text j k then some c else find_client k m

abbrev pub is_empty {ℓ} : {A : Type ℓ} → List A → Bool
is_empty [] = true
is_empty (x ∷ xs) = false

-- get_udp creates the record on first use.
abbrev pub udp_or_new : Option Udp → Udp
udp_or_new none = record { my_assoc = []; my_allowed_target = [] }
udp_or_new (some u) = u

-- UDP::make_authorized: the first target is kept, and only that one is allowed.
unfoldable pub make_authorized : Udp → Text → Udp × Bool
make_authorized u key =
    if is_empty u.my_allowed_target
    then (record u { my_allowed_target = key }, true)
    else (u, same_text key u.my_allowed_target)

-- The associated TCP context is put in error, too.
unfoldable pub shut_associate : Option ℕ → Cx → Cx
shut_associate none cx = cx
shut_associate (some c) cx = record cx { shut = c ∷ cx.shut }

module _ (env : Env) where
  open env use {key_of_texts, key_of_port, v4_text, v6_text}
  open env.buffers use {get_at_u8, get_at_u16, get_at_u32, copy_from_16}

  unfoldable pub refuse_target : Cx → Cx
  refuse_target cx =
      shut_associate (find_client (key_of_texts cx.host cx.port) cx.clients)
        (record cx { in_error = true })

  unfoldable pub authorize_target : Cx → Udp × Bool → Cx × Bool
  authorize_target cx (u, ok) =
      if ok
      then (record cx { udp = some u }, true)
      else (refuse_target (record cx { udp = some u }), false)

  -- authorize_if_udp
  unfoldable pub authorize_if_udp : Text → ℕ → Cx → Cx × Bool
  authorize_if_udp server srv_port cx =
      if cx.l4_proto == sock_dgram
      then authorize_target cx (make_authorized (udp_or_new cx.udp) (key_of_port server srv_port))
      else (cx, true)

  unfoldable pub authorized : Cx × Bool → Ended RequestError
  authorized (cx, ok) = done ((if ok then no_error else unauthorized), cx)

  unfoldable pub parse_fqdn : Cx → Ended RequestError
  parse_fqdn cx = do
    (fqdn_sz, cx) ←
        reading (get_at_u8 cx.readbuf 4)
          (record cx { req_atype = atype_fqdn; state = req_received })
    if leb (length cx.readbuf) (fqdn_sz + 4 + 2) then done (malformed_data, cx) else do
      (fqdn, cx) ← reading (raw_at cx.readbuf 5 fqdn_sz) cx
      (p, cx) ← reading (get_at_u16 cx.readbuf (5 + fqdn_sz)) (record cx { req_str_addr = fqdn })
      authorized (
          authorize_if_udp fqdn (swap16 p)
            (record cx { req_port = swap16 p; req_hdr_size = 5 + fqdn_sz + 2 }))

  -- The end of the branch for addresses, with the text of the address.
  unfoldable pub parsed_addr : Text → Cx → Ended RequestError
  parsed_addr text cx = authorized (
      authorize_if_udp text cx.req_port (record cx {
        nonlocal_dst_host = text;
        nonlocal_dst_port = cx.req_port;
        nonlocal_src = true;
      }))

  -- Both kinds of address are noted as IPv4.
  unfoldable pub parse_ipv4 : Cx → Ended RequestError
  parse_ipv4 cx = do
    (dst, cx) ←
        reading (get_at_u32 cx.readbuf 4)
          (record cx { req_atype = atype_ipv4; state = req_received; req_addr = unset })
    (p, cx) ← reading (get_at_u16 cx.readbuf 8) cx
    parsed_addr (v4_text dst)
        (record cx { req_port = swap16 p; req_hdr_size = 10; req_addr = v4 dst })

  unfoldable pub parse_ipv6 : Cx → Ended RequestError
  parse_ipv6 cx = do
    (dst, cx) ←
        reading (copy_from_16 cx.readbuf 4)
          (record cx { req_atype = atype_ipv4; state = req_received; req_addr = unset })
    (p, cx) ← reading (get_at_u16 cx.readbuf 20) cx
    parsed_addr (v6_text dst)
        (record cx { req_port = swap16 p; req_hdr_size = 22; req_addr = v6 dst })

  unfoldable pub socks5_parse_request : Cx → Ended RequestError
  socks5_parse_request cx = do
    (atype, cx) ← reading (get_at_u8 cx.readbuf 3) cx
    if atype == atype_fqdn
        then parse_fqdn cx
        else if atype == atype_ipv4
        then parse_ipv4 cx
        else if atype == atype_ipv6
        then parse_ipv6 cx
        else done (unsupported_atype, cx)
