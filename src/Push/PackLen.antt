-- ===== src/Push/PackLen.antt =====
-- `checkPackLen` of push_server/src/server_conn.cpp and listen_conn.cpp, and `genSessID` of
-- listen_conn.cpp.
use gpush.Prelude.{ℕ, ◌*◌, ◌^◌, ◌≡◌, List, ◌++◌, ◌||◌, if◌then◌else◌, ◌==◌, ltb, leb, arith, Bool}
use gpush.Prelude.Int32.{negative, minus}
use gpush.Base.Base64.{base64_encode}
use gpush.Base.LoopBuf.{LoopBuf, peek}
use gpush.Proto.{head_at, sizeof_head, PackLen, bad, wait, pack, check_len, len_check}
use gpush.Proto.Word.{htonl, bytes_of}

-- Of a connection to a connection server: below 0, 0, or the length of a packet.
unfoldable pub server_pack_len : LoopBuf → ℕ
server_pack_len b =
    let len = htonl (head_at (peek b sizeof_head)).len in
    if ltb b.size sizeof_head
    then 0
    else if (leb (2 ^ 31) len || ltb len sizeof_head) || ltb (1024 * 1024) len
    then minus 1
    else if leb len b.size
    then len
    else 0

-- Of a connection that was accepted.
unfoldable pub listen_pack_len : LoopBuf → ℕ
listen_pack_len b =
    let len = htonl (head_at (peek b sizeof_head)).len in
    if ltb b.size sizeof_head
    then 0
    else if (leb (2 ^ 31) len || ltb len sizeof_head) || ltb (1024 * 1024) len
    then minus 1
    else if leb len b.size
    then len
    else 0

unfoldable pub gen_sess_id : ℕ → ℕ → List ℕ → List ℕ
gen_sess_id svid conid n = base64_encode (bytes_of svid ++ bytes_of conid) ++ n

-- What a caller makes of such a result.
abbrev pub outcome : ℕ → PackLen
outcome ret = if negative ret then bad else if ret == 0 then wait else pack ret

choose :
    (small : Bool) (len size : ℕ)
    → outcome (
        if small
        then 0
        else if (leb (2 ^ 31) len || ltb len sizeof_head) || ltb (1024 * 1024) len
        then minus 1
        else if leb len size
        then len
        else 0)
      ≡ (if small then wait else len_check len size)
unfolding len_check
choose small len size = ground arith

-- Both connections of the push server find the packets in their buffers that the connection server
-- finds in its own.
pub pack_len-check_len :
    (b : LoopBuf)
    → (outcome (server_pack_len b) ≡ check_len b) × (outcome (listen_pack_len b) ≡ check_len b)
unfolding server_pack_len listen_pack_len check_len
pack_len-check_len b =
    let same = choose (ltb b.size sizeof_head) (htonl (head_at (peek b sizeof_head)).len) b.size in
    (same, same)
