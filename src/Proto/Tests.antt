-- ===== src/Proto/Tests.antt =====
-- Packets and session ids, and their properties at an input.
use gpush.Prelude.{◌≡◌, refl, [], ◌∷◌, ◌++◌, leb, length, take, arith}
use gpush.Base.Base64.{base64_decode}
use gpush.Proto.Word.{bytes_of, htonl}
use gpush.Proto.{
  Head, head_bytes, construct_packet, logic_construct_packet, pack, decoration_name,
  get_decoration_info, logic_get_decoration_info, decoded, out_of_range, rejected, magic_number,
  keepalive_req,
}
use gpush.Proto.Framing.{check_bytes, check_bytes-construct_packet}
use gpush.Proto.SessionId.{get_decoration_info-decoration_name, get_decoration_info_short}

abbrev keepalive : Head
keepalive = record { magic = magic_number; len = 0; cmd = keepalive_req }

-- The two servers send different bytes for the same number.
push_magic :
    logic_construct_packet keepalive []
    ≡ 0x20 ∷ 0x14 ∷ 0x12 ∷ 0x28 ∷ 0 ∷ 0 ∷ 0 ∷ 12 ∷ 0 ∷ 0 ∷ 0 ∷ 0 ∷ []
unfolding logic_construct_packet head_bytes bytes_of htonl
push_magic = refl

connect_magic :
    construct_packet keepalive [] ≡ 0x28 ∷ 0x12 ∷ 0x14 ∷ 0x20 ∷ 0 ∷ 0 ∷ 0 ∷ 12 ∷ 0 ∷ 0 ∷ 0 ∷ 0 ∷ []
unfolding construct_packet head_bytes bytes_of htonl
connect_magic = refl

check_bytes-construct_packet_example :
    (check_bytes (construct_packet keepalive (7 ∷ []) ++ (1 ∷ 2 ∷ [])) ≡ pack 13)
    × (check_bytes (logic_construct_packet keepalive (7 ∷ []) ++ (1 ∷ 2 ∷ [])) ≡ pack 13)
check_bytes-construct_packet_example =
    check_bytes-construct_packet keepalive (7 ∷ []) (1 ∷ 2 ∷ []) (omega arith)

get_decoration_info-decoration_name_example :
    (get_decoration_info (decoration_name 3 2000017 (b'x' ∷ [])) ≡ decoded 3 2000017 (b'x' ∷ []))
    × (logic_get_decoration_info (decoration_name 3 2000017 (b'x' ∷ []))
        ≡ decoded 3 2000017 (b'x' ∷ []))
get_decoration_info-decoration_name_example =
    get_decoration_info-decoration_name 3 2000017 (b'x' ∷ []) (omega arith) (omega arith)

one_byte_short :
    (get_decoration_info (1 ∷ [])
      ≡ out_of_range (leb 8 (length (base64_decode (take 12 (1 ∷ []))))))
    × (logic_get_decoration_info (1 ∷ []) ≡ rejected)
one_byte_short = get_decoration_info_short (1 ∷ []) (omega arith)
