-- ===== src/Proto/Framing.antt =====
-- What the length check finds at the front of a stream.
use gpush.Prelude.{
  ℕ, ◌+◌, ◌%◌, ◌^◌, ◌<◌, ◌≤◌, ◌≡◌, refl, ap, ◌∙◌, List, [], ◌++◌, arith, length, length-append,
  take, ltb, if◌then◌else◌, false, append_assoc, take-append_le,
}
use gpush.Base.LoopBuf.{LoopBuf}
use gpush.Base.LoopBuf.Invariant.{contents, IsValid}
use gpush.Base.LoopBuf.Read.{peek_lem}
use gpush.Proto.Word.{bytes_of, word_at, word_of-bytes_of, htonl, htonl-htonl, htonl_bound}
use gpush.Proto.{
  Head, sizeof_head, head_bytes, head_at, construct_packet, logic_construct_packet, PackLen, bad,
  wait, pack, max_packet, len_check, check_len,
}

-- The check on the bytes of the stream.
unfoldable pub check_bytes : List ℕ → PackLen
check_bytes l =
    if ltb (length l) sizeof_head
    then wait
    else len_check (htonl (head_at (take sizeof_head l)).len) (length l)

-- The check on a queue looks at nothing but the bytes in it.
pub check_len_lem : (b : LoopBuf) → IsValid b → check_len b ≡ check_bytes (contents b)
unfolding check_len check_bytes
check_len_lem b v = rw (peek_lem b sizeof_head v, v.counted)

head_at-head_bytes :
    (h : Head) (rest : List ℕ)
    → h.len < 2 ^ 32
    → (head_at (take sizeof_head (head_bytes h ++ rest))).len ≡ h.len
unfolding head_at head_bytes bytes_of word_at
head_at-head_bytes h rest b = word_of-bytes_of h.len b

length-head_bytes : (h : Head) → length (head_bytes h) ≡ 12
unfolding head_bytes bytes_of
length-head_bytes h = refl

-- A length in range, with as many bytes there.
len_check_pack :
    (len buf_len : ℕ)
    → sizeof_head ≤ len
    → len ≤ max_packet
    → len ≤ buf_len
    → len_check len buf_len ≡ pack len
unfolding len_check
len_check_pack len buf_len lo hi enough = ground arith

framed :
    (h : Head) (body rest : List ℕ)
    → h.len ≡ htonl ((sizeof_head + length body) % 2 ^ 32)
    → sizeof_head + length body ≤ max_packet
    → check_bytes (head_bytes h ++ (body ++ rest)) ≡ pack (sizeof_head + length body)
unfolding check_bytes
framed h body rest e small =
    let total = length-append (head_bytes h) (body ++ rest) in
    let tail = length-append body rest in
    let header = length-head_bytes h in
    let enough : ltb (length (head_bytes h ++ (body ++ rest))) sizeof_head ≡ false = ground arith in
    let word : htonl (head_at (take sizeof_head (head_bytes h ++ (body ++ rest)))).len
        ≡ sizeof_head + length body =
      ap htonl (
        head_at-head_bytes h (body ++ rest)
          (omega (arith, htonl_bound ((sizeof_head + length body) % 2 ^ 32)))
        ∙ e)
      ∙ ap (λ (n : ℕ). htonl (htonl n)) (omega arith)
      ∙ htonl-htonl (sizeof_head + length body) (omega arith) in
    rw (enough, word) (len_check_pack _ _ (omega arith) small (omega arith))

-- A stream that begins with a packet of either server, up to a megabyte long, is found to begin
-- with a packet of that length, header included.
pub check_bytes-construct_packet :
    (h : Head) (body rest : List ℕ)
    → sizeof_head + length body ≤ max_packet
    → (check_bytes (construct_packet h body ++ rest) ≡ pack (sizeof_head + length body))
      × (check_bytes (logic_construct_packet h body ++ rest) ≡ pack (sizeof_head + length body))
unfolding construct_packet logic_construct_packet
check_bytes-construct_packet h body rest small = (
  ap check_bytes (append_assoc (head_bytes _) body rest) ∙ framed _ body rest refl small,
  ap check_bytes (append_assoc (head_bytes _) body rest) ∙ framed _ body rest refl small,
)

pub length-construct_packet :
    (h : Head) (body : List ℕ) → length (construct_packet h body) ≡ sizeof_head + length body
unfolding construct_packet
length-construct_packet h body =
    omega (arith, length-append (head_bytes _) body, length-head_bytes _)

-- A packet found is never longer than the stream, nor shorter than a header; one found at the front
-- of a stream is found again when more bytes have come.
pub check_bytes_pack :
    (l : List ℕ) (n : ℕ) → check_bytes l ≡ pack n → (sizeof_head ≤ n) × (n ≤ length l)
unfolding check_bytes len_check
check_bytes_pack l n e = ground arith

pub check_bytes-append_pack :
    (l more : List ℕ) (n : ℕ) → check_bytes l ≡ pack n → check_bytes (l ++ more) ≡ pack n
unfolding check_bytes len_check
check_bytes-append_pack l more n e =
    let (lo, hi) = check_bytes_pack l n e in
    rw (take-append_le sizeof_head l more (omega arith))
      (ground (arith, length-append l more, check_bytes_pack l n e))

pub check_bytes-append_bad : (l more : List ℕ) → check_bytes l ≡ bad → check_bytes (l ++ more) ≡ bad
unfolding check_bytes len_check
check_bytes-append_bad l more e =
    let long : sizeof_head ≤ length l = ground arith in
    rw (take-append_le sizeof_head l more long) (ground (arith, length-append l more))

pub check_bytes-nil : check_bytes [] ≡ wait
unfolding check_bytes
check_bytes-nil = refl
