-- ===== src/Dns/Records.antt =====
-- src/inspect/dns.cpp: the answer, authority and additional sections of DNS_Packet::load.
use smithproxy.Base.{
  ℕ, zero, suc, ◌+◌, ◌%◌, ◌&&◌, ◌||◌, List, [], ◌∷◌, ◌++◌, Option, none, some, ◌==◌, ltb, leb,
  if◌then◌else◌, length,
}
use smithproxy.Base.Bytes.{Buffers, swap16, swap32}
use smithproxy.Dns.{
  Answer, Packet, new_answer, type_a, type_ns, type_soa, type_txt, type_aaaa, type_opt,
}
use smithproxy.Dns.Names.{construct_qname, skip_qname}
use smithproxy.Dns.Loader.{Loader, ◌>>=◌, pure, reads, updates}
use smithproxy.Dns.Questions.{Cursor, at_cursor, failed_at}

unfoldable pub push_answer : Answer → Packet → Packet
push_answer a p = record p { answers_list = p.answers_list ++ a ∷ [] }

unfoldable pub push_authority : Answer → Packet → Packet
push_authority a p = record p { authorities_list = p.authorities_list ++ a ∷ [] }

unfoldable pub push_additional : Answer → Packet → Packet
push_additional a p = record p { additionals_list = p.additionals_list ++ a ∷ [] }

unfoldable pub push_ttl_idx : ℕ → Packet → Packet
push_ttl_idx i p = record p { answer_ttl_idx = p.answer_ttl_idx ++ i ∷ [] }

-- The default of construct_qname's last argument.
abbrev pub loop_max : ℕ
loop_max = 16

module _ (B : Buffers) (src : List ℕ) where
  open B use {get_at_u8, get_at_u16, get_at_u32, view}

  -- The data of a record, where it fits into the buffer.
  unfoldable pub record_data : ℕ → ℕ → List ℕ
  record_data start datalen =
      if ltb 0 datalen && leb (start + datalen) (length src) then view src start datalen else []

  -- One answer, whose name is taken to be a pointer. The value is the position behind it.
  unfoldable pub answer : ℕ → Loader ℕ
  answer i = do
    name ← reads (construct_qname src loop_max i)
    kind ← reads (get_at_u16 src (i + 2))
    klass ← reads (get_at_u16 src (i + 4))
    _ ← updates (push_ttl_idx (i + 6))
    ttl ← reads (get_at_u32 src (i + 6))
    size ← reads (get_at_u32 src (i + 10))
    let datalen = swap16 (size % 65536)
    _ ← updates (
        push_answer (record new_answer {
          qname = name;
          kind = swap16 kind;
          klass = swap16 klass;
          ttl = swap32 ttl;
          datalen = datalen;
          content = record_data (i + 12) datalen;
        }))
    pure (i + (12 + datalen))

  unfoldable pub answer_section : ℕ → ℕ → Loader Cursor
  answer_section zero i = pure (at_cursor i 0)
  answer_section (suc togo) i =
      if ltb i (length src)
      then (do next ← answer i; answer_section togo next)
      else pure (at_cursor i (suc togo))

  -- An authority of a known type, whose name starts at `start` and whose class stands at `i`.
  unfoldable pub authority_record : ℕ → ℕ → ℕ → Loader (Option ℕ)
  authority_record pre_type start i = do
    name ← reads (construct_qname src loop_max start)
    klass ← reads (get_at_u16 src i)
    ttl ← reads (get_at_u32 src (i + 2))
    size ← reads (get_at_u16 src (i + 6))
    let datalen = swap16 size
    _ ← updates (
        push_authority (record new_answer {
          qname = name;
          kind = pre_type;
          klass = swap16 klass;
          ttl = swap32 ttl;
          datalen = datalen;
          content = record_data (i + 8) datalen;
        }))
    pure (some (i + (8 + datalen)))

  unfoldable pub typed_authority : ℕ → ℕ → ℕ → Loader (Option ℕ)
  typed_authority pre_type start i =
      if (pre_type == type_soa) || (pre_type == type_ns)
      then authority_record pre_type start i
      else pure none

  unfoldable pub authority : ℕ → Loader (Option ℕ)
  authority i = do
    xi ← reads (skip_qname src i)
    pre_type ← reads (get_at_u16 src (i + xi))
    typed_authority (swap16 pre_type) i (i + (xi + 2))

  unfoldable pub next_authority : (ℕ → Loader Cursor) → ℕ → Option ℕ → Loader Cursor
  next_authority rec togo none = pure (failed_at (length src) togo)
  next_authority rec togo (some i) = rec i

  unfoldable pub authority_section : ℕ → ℕ → Loader Cursor
  authority_section zero i = pure (at_cursor i 0)
  authority_section (suc togo) i =
      if ltb i (length src)
      then (do next ← authority i; next_authority (authority_section togo) (suc togo) next)
      else pure (at_cursor i (suc togo))

  -- The data of an OPT record are dropped, but its first option is read.
  unfoldable pub opt_data : ℕ → ℕ → Loader (Option ℕ)
  opt_data datalen i =
      if leb (i + datalen) (length src)
      then if ltb 0 datalen
        then (do
          option_type ← reads (get_at_u16 src (i + 2))
          option_len ← reads (get_at_u16 src (i + 4))
          pure (some (i + datalen)))
        else pure (some i)
      else pure none

  unfoldable pub opt_record : ℕ → Loader (Option ℕ)
  opt_record i = do
    udp_size ← reads (get_at_u16 src i)
    higher_bits_rcode ← reads (get_at_u8 src (i + 2))
    edns0_version ← reads (get_at_u8 src (i + 3))
    z ← reads (get_at_u16 src (i + 4))
    size ← reads (get_at_u16 src (i + 6))
    opt_data (swap16 size) (i + 8)

  -- The position behind the data of an additional record, which data that do not fit leave there.
  unfoldable pub behind_data : ℕ → ℕ → ℕ
  behind_data i datalen = if ltb 0 datalen && leb (i + datalen) (length src) then i + datalen else i

  unfoldable pub additional_record : ℕ → ℕ → ℕ → Loader (Option ℕ)
  additional_record pre_type start i = do
    name ← reads (construct_qname src loop_max start)
    klass ← reads (get_at_u16 src i)
    _ ← updates (push_ttl_idx (i + 2))
    ttl ← reads (get_at_u32 src (i + 2))
    size ← reads (get_at_u16 src (i + 6))
    let datalen = swap16 size
    _ ← updates (
        push_additional (record new_answer {
          qname = name;
          kind = pre_type;
          klass = swap16 klass;
          ttl = swap32 ttl;
          datalen = datalen;
          content = record_data (i + 8) datalen;
        }))
    pure (some (behind_data (i + 8) datalen))

  unfoldable pub typed_additional : ℕ → ℕ → ℕ → Loader (Option ℕ)
  typed_additional pre_type start i =
      if pre_type == type_opt
      then opt_record i
      else if (pre_type == type_a) || (pre_type == type_aaaa) || (pre_type == type_txt)
      then additional_record pre_type start i
      else pure none

  unfoldable pub additional : ℕ → Loader (Option ℕ)
  additional i = do
    xi ← reads (skip_qname src i)
    pre_type ← reads (get_at_u16 src (i + xi))
    typed_additional (swap16 pre_type) i (i + (xi + 2))

  -- A record that is cut or of another type ends the section, at the end of the buffer.
  unfoldable pub next_additional : (ℕ → Loader ℕ) → Option ℕ → Loader ℕ
  next_additional rec none = pure (length src)
  next_additional rec (some i) = rec i

  -- The value is the position at the end; what is still to go is not looked at.
  unfoldable pub additional_section : ℕ → ℕ → Loader ℕ
  additional_section zero i = pure i
  additional_section (suc togo) i =
      if ltb i (length src)
      then (do next ← additional i; next_additional (additional_section togo) next)
      else pure i
