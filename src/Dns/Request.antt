-- ===== src/Dns/Request.antt =====
-- src/inspect/dns.cpp: DNSFactory::generate_dns_request.
use smithproxy.Base.{ℕ, ◌+◌, ◌/◌, ◌%◌, List, [], ◌∷◌, Text, ◌==◌, if◌then◌else◌, length, set}
use smithproxy.Base.Bytes.{swap16}

-- The bytes beside the name, with the dot that is put before it: DNS_REQUEST_OVERHEAD.
abbrev pub request_overhead : ℕ
request_overhead = 17

-- A uint16_t into a buffer, in the host's byte order.
abbrev pub set_u16 : List ℕ → ℕ → ℕ → List ℕ
set_u16 b i w = set (set b i (w % 256)) (i + 1) (w / 256 % 256)

unfoldable pub request_header : ℕ → List ℕ → List ℕ
request_header id b =
    let b = set_u16 b 0 (swap16 id) in
    let b = set_u16 b 2 (swap16 256) in
    let b = set_u16 b 4 (swap16 1) in
    let b = set_u16 b 6 0 in let b = set_u16 b 8 0 in set_u16 b 10 0

-- The loop over the name from its index `i`: where the length of the label goes, and the length so
-- far, which is a uint8_t.
unfoldable pub name_loop : Text → ℕ → ℕ → ℕ → List ℕ → ℕ × ℕ × List ℕ
name_loop [] i len_ptr piece_sz b = (len_ptr, piece_sz, b)
name_loop (c ∷ cs) i len_ptr piece_sz b =
    if c == 46
    then name_loop cs (i + 1) i 0 (set b (12 + len_ptr) piece_sz)
    else name_loop cs (i + 1) len_ptr ((piece_sz + 1) % 256) (set b (12 + i) c)

-- The last length.
unfoldable pub last_piece : ℕ × ℕ × List ℕ → List ℕ
last_piece (len_ptr, piece_sz, b) = set b (12 + len_ptr) piece_sz

unfoldable pub request_trailer : ℕ → ℕ → List ℕ → List ℕ
request_trailer at t b = set_u16 (set_u16 (set b at 0) (at + 1) (swap16 t)) (at + 3) (swap16 1)

-- `sized` is what `b.size(hostname.size() + DNS_REQUEST_OVERHEAD)` makes of the buffer. The value
-- returned is the size of the buffer.
unfoldable pub generate_dns_request : List ℕ → ℕ → Text → ℕ → List ℕ
generate_dns_request sized id h t =
    let hostname = 46 ∷ h in
    request_trailer (12 + length hostname) t
      (last_piece (name_loop hostname 0 0 0 (request_header id sized)))
