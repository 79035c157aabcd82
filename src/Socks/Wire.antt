-- ===== src/Socks/Wire.antt =====
-- The bytes of requests and replies.
use smithproxy.Base.{
  ℕ, ◌+◌, ◌*◌, ◌/◌, ◌%◌, ◌<◌, ◌≡◌, refl, ap, ◌∙◌, ne→==_false, ◌≢◌, ◌↔◌, true, false, List, [], ◌∷◌,
  ◌++◌, Text, arith, leb, length, length-append, take, take-append, drop,
}
use mathlib.Core.Path.{ap₂}
use smithproxy.Base.Outcome.{value}
use smithproxy.Base.Bytes.{
  raw_at-inside, IsBuffers, word_at, dword_at, byte_at, word_at-append, swap16, bytes16, bytes32,
}
use smithproxy.Policy.Rule.{sock_dgram}
use smithproxy.Socks.{
  Cx, Env, done, undefined, no_error, v4, req_received, cmd_connect, atype_ipv4, atype_fqdn,
}
use smithproxy.Socks.Request.{
  socks5_parse_request, parse_ipv4, parse_fqdn, parsed_addr, authorized, authorize_if_udp,
}
use smithproxy.Socks.Reply.{reply_body, process_socks_reply_v5, write_response}

-- The two bytes of a number that was read and swapped come back in their order.
port_bytes : (p q : ℕ) → p < 256 → q < 256 → bytes16 (swap16 (swap16 (p + q * 256))) ≡ p ∷ q ∷ []
port_bytes p q hp hq = ground (arith, low, high)
  where
    low : swap16 (swap16 (p + q * 256)) % 256 ≡ p
    low = omega arith

    high : swap16 (swap16 (p + q * 256)) / 256 % 256 ≡ q
    high = omega arith

length-reply_fqdn :
    (cx : Cx)
    → cx.req_cmd ≡ cmd_connect
    → cx.req_atype ≡ atype_fqdn
    → length (reply_body cx) ≡ length cx.req_str_addr + 4
unfolding reply_body
length-reply_fqdn cx hc ha =
    ground (arith, length-append cx.req_str_addr (bytes16 (swap16 cx.req_port)))

-- The reply to a CONNECT by name runs past its array of 128 bytes if and only if the name has more
-- than 121 characters.
pub reply_v5-overflow :
    (cx : Cx)
    → cx.req_cmd ≡ cmd_connect
    → cx.req_atype ≡ atype_fqdn
    → (process_socks_reply_v5 cx ≡ undefined) ↔ (121 < length cx.req_str_addr)
unfolding process_socks_reply_v5 write_response
reply_v5-overflow cx hc ha =
    (ground (arith, length-reply_fqdn cx hc ha), ground (arith, length-reply_fqdn cx hc ha))

module _ (env : Env) (laws : IsBuffers env.buffers) where
  -- The context after an IPv4 request for the address and port as read.
  parsed_v4 : Cx → ℕ → ℕ → Cx
  parsed_v4 cx dst p = record cx {
    req_atype = atype_ipv4;
    state = req_received;
    req_addr = v4 dst;
    req_port = swap16 p;
    req_hdr_size = 10;
    nonlocal_dst_host = env.v4_text dst;
    nonlocal_dst_port = swap16 p;
    nonlocal_src = true;
  }

  parse_ipv4_reads :
      (cx : Cx) (dst p : ℕ)
      → env.buffers.get_at_u8 cx.readbuf 3 ≡ value 1
      → env.buffers.get_at_u32 cx.readbuf 4 ≡ value dst
      → env.buffers.get_at_u16 cx.readbuf 8 ≡ value p
      → cx.l4_proto ≢ sock_dgram
      → socks5_parse_request env cx ≡ done (no_error, parsed_v4 cx dst p)
  unfolding socks5_parse_request parse_ipv4 parsed_addr authorized authorize_if_udp parsed_v4
  parse_ipv4_reads cx dst p e8 e32 e16 ht = rw (e8, e32, e16, ne→==_false _ _ ht) refl

  address_bytes :
      (a1 a2 a3 a4 : ℕ)
      → a1 < 256
      → a2 < 256
      → a3 < 256
      → a4 < 256
      → bytes32 (a1 + a2 * 256 + (a3 + a4 * 256) * 65536) ≡ a1 ∷ a2 ∷ a3 ∷ a4 ∷ []
  address_bytes a1 a2 a3 a4 h1 h2 h3 h4 = ground (arith, b1, b2, b3, b4)
    where
      w : ℕ
      w = a1 + a2 * 256 + (a3 + a4 * 256) * 65536

      b1 : w % 256 ≡ a1
      b1 = omega arith

      b2 : w / 256 % 256 ≡ a2
      b2 = omega arith

      b3 : w / 65536 % 256 ≡ a3
      b3 = omega arith

      b4 : w / 16777216 % 256 ≡ a4
      b4 = omega arith

  reply_parsed_v4 :
      (cx : Cx) (dst p : ℕ)
      → cx.req_cmd ≡ cmd_connect
      → reply_body (parsed_v4 cx dst p) ≡ 1 ∷ (bytes32 dst ++ bytes16 (swap16 (swap16 p)))
  unfolding reply_body parsed_v4
  reply_parsed_v4 cx dst p hc = ground arith

  -- An IPv4 request over TCP with all its bytes present is parsed, and the reply to a CONNECT then
  -- repeats its address type, its four address bytes and its two port bytes.
  pub reply-parse_ipv4 :
      (cx : Cx) (v c r a1 a2 a3 a4 p q : ℕ) (rest : List ℕ)
      → cx.readbuf ≡ v ∷ c ∷ r ∷ 1 ∷ a1 ∷ a2 ∷ a3 ∷ a4 ∷ p ∷ q ∷ rest
      → cx.l4_proto ≢ sock_dgram
      → cx.req_cmd ≡ cmd_connect
      → a1 < 256
      → a2 < 256
      → a3 < 256
      → a4 < 256
      → p < 256
      → q < 256
      → (cx' : Cx) × (socks5_parse_request env cx ≡ done (no_error, cx'))
        × (reply_body cx' ≡ 1 ∷ a1 ∷ a2 ∷ a3 ∷ a4 ∷ p ∷ q ∷ [])
  reply-parse_ipv4 cx v c r a1 a2 a3 a4 p q rest hb ht hc h1 h2 h3 h4 hp hq = (
    parsed_v4 cx dst port,
    parse_ipv4_reads cx dst port (laws.reads_u8 _ 3 ∙ ap (λ b. byte_at b 3) hb)
        (laws.reads_u32 _ 4 ∙ ap (λ b. dword_at b 4) hb)
        (laws.reads_u16 _ 8 ∙ ap (λ b. word_at b 8) hb) ht,
    reply_parsed_v4 cx dst port hc
        ∙ ap₂ (λ x y. 1 ∷ (x ++ y)) (address_bytes a1 a2 a3 a4 h1 h2 h3 h4) (port_bytes p q hp hq),
  )
    where
      dst : ℕ
      dst = a1 + a2 * 256 + (a3 + a4 * 256) * 65536

      port : ℕ
      port = p + q * 256

  -- The context after a request by name.
  parsed_name : Cx → Text → ℕ → ℕ → Cx
  parsed_name cx name size p = record cx {
    req_atype = atype_fqdn;
    state = req_received;
    req_str_addr = name;
    req_port = swap16 p;
    req_hdr_size = 5 + size + 2;
  }

  parse_fqdn_reads :
      (cx : Cx) (name : Text) (size p : ℕ)
      → env.buffers.get_at_u8 cx.readbuf 3 ≡ value 3
      → env.buffers.get_at_u8 cx.readbuf 4 ≡ value size
      → leb (length cx.readbuf) (size + 4 + 2) ≡ false
      → env.buffers.get_at_u16 cx.readbuf (5 + size) ≡ value p
      → take size (drop 5 cx.readbuf) ≡ name
      → cx.l4_proto ≢ sock_dgram
      → socks5_parse_request env cx ≡ done (no_error, parsed_name cx name size p)
  unfolding socks5_parse_request parse_fqdn authorized authorize_if_udp parsed_name
  parse_fqdn_reads cx name size p e3 e4 el e16 en ht =
      rw (e3, e4, el, raw_at-inside cx.readbuf size el ∙ ap value en, e16, ne→==_false _ _ ht) refl

  -- A request by name over TCP, with the name's length before it and the two port bytes behind it,
  -- is parsed to that name and that port; what follows does not matter.
  pub parse_request-name :
      (cx : Cx) (v c r p q : ℕ) (name rest : List ℕ)
      → cx.readbuf ≡ v ∷ c ∷ r ∷ 3 ∷ length name ∷ (name ++ p ∷ q ∷ rest)
      → cx.l4_proto ≢ sock_dgram
      → p < 256
      → q < 256
      → (cx' : Cx) × (socks5_parse_request env cx ≡ done (no_error, cx'))
        × (cx'.req_atype ≡ atype_fqdn)
        × (cx'.req_str_addr ≡ name)
        × (cx'.req_port ≡ p * 256 + q)
  unfolding parsed_name
  parse_request-name cx v c r p q name rest hb ht hp hq = (
    parsed_name cx name (length name) (p + q * 256),
    parse_fqdn_reads cx name (length name) (p + q * 256)
        (laws.reads_u8 _ 3 ∙ ap (λ b. byte_at b 3) hb)
        (laws.reads_u8 _ 4 ∙ ap (λ b. byte_at b 4) hb) (rw hb long_enough)
        (laws.reads_u16 _ _
          ∙ ap (λ b. word_at b (5 + length name)) hb
          ∙ word_at-append (v ∷ c ∷ r ∷ 3 ∷ length name ∷ name) rest (5 + length name) p q
              (omega arith))
        (ap (λ b. take (length name) (drop 5 b)) hb ∙ take-append name _) ht,
    refl,
    refl,
    omega arith,
  )
    where
      long_enough :
          leb (length (v ∷ c ∷ r ∷ 3 ∷ length name ∷ (name ++ p ∷ q ∷ rest))) (length name + 4 + 2)
          ≡ false
      long_enough = ground (arith, length-append name (p ∷ q ∷ rest))
