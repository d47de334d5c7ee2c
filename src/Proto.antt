-- ===== src/Proto.antt =====
-- The wire format: head/msg_head.h, connect_server/src/common.{h,cpp} and
-- push_server/src/logic_common.cpp. An `int32` is its bit pattern, a number below 2^32, and lies in
-- memory low byte first, as on the machines that the servers are built for.
pub mod Word
pub mod Framing
pub mod Unframe
pub mod SessionId
mod Tests
use gpush.Prelude.{
  ℕ, ◌+◌, ◌*◌, ◌/◌, ◌%◌, ◌^◌, List, [], ◌∷◌, ◌++◌, Option, none, some, Bool, if◌then◌else◌, ◌==◌,
  ltb, leb, ◌||◌, length, take, drop,
}
use gpush.Base.Base64.{base64_encode, base64_decode}
use gpush.Base.LoopBuf.{LoopBuf, peek}
use Word.{bytes_of, word_at, htonl}

pub record Head : Type 0 where
  pub magic : ℕ
  pub len : ℕ
  pub cmd : ℕ

abbrev pub sizeof_head : ℕ
sizeof_head = 12

abbrev pub magic_number : ℕ
magic_number = 0x20141228

-- The commands.
abbrev pub keepalive_req : ℕ
keepalive_req = 0

abbrev pub login_req : ℕ
login_req = 100

abbrev pub login_resp : ℕ
login_resp = 101

abbrev pub push_req : ℕ
push_req = 200

abbrev pub push_resp : ℕ
push_resp = 201

abbrev pub json_push_req : ℕ
json_push_req = 600

abbrev pub json_push_resp : ℕ
json_push_resp = push_req + 1

-- A `head` in memory, and one read out of it.
unfoldable pub head_bytes : Head → List ℕ
head_bytes h = bytes_of h.magic ++ (bytes_of h.len ++ bytes_of h.cmd)

unfoldable pub head_at : List ℕ → Head
unfolding word_at
head_at bytes = record { magic = word_at bytes 0; len = word_at bytes 4; cmd = word_at bytes 8 }

-- `constructPacket` of the connection server: `magic` is written as it is.
unfoldable pub construct_packet : Head → List ℕ → List ℕ
construct_packet h body = head_bytes rh ++ body
  where
    rh : Head
    rh = record {
      magic = h.magic;
      len = htonl ((sizeof_head + length body) % 2 ^ 32);
      cmd = htonl h.cmd;
    }

-- `constructPacket` of the push server.
pub logic_construct_packet : Head → List ℕ → List ℕ
logic_construct_packet h body = head_bytes rh ++ body
  where
    rh : Head
    rh = record {
      magic = htonl h.magic;
      len = htonl ((sizeof_head + length body) % 2 ^ 32);
      cmd = htonl h.cmd;
    }

-- What `checkLen` and `checkPackLen` return: below 0, 0, or the length of a packet.
pub data PackLen : Type 0 where
  bad wait : PackLen
  pack : ℕ → PackLen

abbrev pub max_packet : ℕ
max_packet = 1024 * 1024

-- The tests on `h.len`; a pattern from 2^31 on is a negative number.
unfoldable pub len_check : ℕ → ℕ → PackLen
len_check len buf_len =
    if (leb (2 ^ 31) len || ltb len sizeof_head) || ltb max_packet len
    then bad
    else if leb len buf_len
    then pack len
    else wait

-- `checkLen` of the connection server.
unfoldable pub check_len : LoopBuf → PackLen
check_len b =
    if ltb b.size sizeof_head
    then wait
    else len_check (htonl (head_at (peek b sizeof_head)).len) b.size

-- `decorationName`, the same in both servers.
pub decoration_name : ℕ → ℕ → List ℕ → List ℕ
decoration_name svid conid n = base64_encode (bytes_of svid ++ bytes_of conid) ++ n

-- What `getDecorationInfo` may do: return; throw, where `substr` starts behind the end, with whether
-- the decoded text filled the two words that were read before; or return with words that it did not.
pub data Decoration : Type 0 where
  decoded : ℕ → ℕ → List ℕ → Decoration
  out_of_range : Bool → Decoration
  rejected unfilled : Decoration

decoration_words : List ℕ → List ℕ → Decoration
decoration_words buf n =
    if ltb (length buf) 8 then unfilled else decoded (word_at buf 0) (word_at buf 4) n

-- The connection server's version does not test the length first. The words that it has read are lost
-- with the exception.
pub get_decoration_info : List ℕ → Decoration
unfolding decoration_words
get_decoration_info dn =
    if ltb (length dn) 12
    then out_of_range (leb 8 (length (base64_decode (take 12 dn))))
    else decoration_words (base64_decode (take 12 dn)) (drop 12 dn)

-- The push server's version does.
pub logic_get_decoration_info : List ℕ → Decoration
unfolding decoration_words
logic_get_decoration_info dn =
    if ltb (length dn) 12
    then rejected
    else decoration_words (base64_decode (take 12 dn)) (drop 12 dn)
