-- ===== src/Proto/SessionId.antt =====
-- The session id: the server's and the connection's id in base64, and a name behind them.
use gpush.Prelude.{
  ℕ, ◌^◌, ◌<◌, ◌≡◌, refl, ◌∙◌, List, ◌++◌, arith, length, length-append, take, drop, ltb, leb,
  false, All-append, take-append_le, take_all, drop-append_ge,
}
use gpush.Prelude.Bytes.{IsByte}
use gpush.Base.Base64.{base64_encode, base64_decode}
use gpush.Base.Base64.RoundTrip.{base64_decode-base64_encode, length-base64_encode}
use gpush.Proto.Word.{bytes_of, word_at, word_of-bytes_of, AreBytes-bytes_of}
use gpush.Proto.{
  decoded, rejected, out_of_range, decoration_words, decoration_name, get_decoration_info,
  logic_get_decoration_info,
}

abbrev id_bytes : ℕ → ℕ → List ℕ
id_bytes svid conid = bytes_of svid ++ bytes_of conid

length-id_bytes : (svid conid : ℕ) → length (id_bytes svid conid) ≡ 8
unfolding bytes_of
length-id_bytes svid conid = refl

id_text : (svid conid : ℕ) → length (base64_encode (id_bytes svid conid)) ≡ 12
id_text svid conid =
    omega (arith, length-base64_encode (id_bytes svid conid), length-id_bytes svid conid)

decode_id :
    (svid conid : ℕ) → base64_decode (base64_encode (id_bytes svid conid)) ≡ id_bytes svid conid
decode_id svid conid = base64_decode-base64_encode (id_bytes svid conid) (
    All-append IsByte (bytes_of svid) (bytes_of conid) (AreBytes-bytes_of svid)
      (AreBytes-bytes_of conid))

words_id :
    (svid conid : ℕ) (n : List ℕ)
    → svid < 2 ^ 32
    → conid < 2 ^ 32
    → decoration_words (id_bytes svid conid) n ≡ decoded svid conid n
unfolding decoration_words bytes_of word_at
words_id svid conid n hs hc = rw (word_of-bytes_of svid hs, word_of-bytes_of conid hc)

-- Either server's `getDecorationInfo` takes apart what `decorationName` puts together.
pub get_decoration_info-decoration_name :
    (svid conid : ℕ) (n : List ℕ)
    → svid < 2 ^ 32
    → conid < 2 ^ 32
    → (get_decoration_info (decoration_name svid conid n) ≡ decoded svid conid n)
      × (logic_get_decoration_info (decoration_name svid conid n) ≡ decoded svid conid n)
unfolding get_decoration_info logic_get_decoration_info decoration_name
get_decoration_info-decoration_name svid conid n hs hc =
    let text = base64_encode (id_bytes svid conid) in
    let twelve = id_text svid conid in
    let long : ltb (length (text ++ n)) 12 ≡ false = ground (arith, length-append text n) in
    let front : take 12 (text ++ n) ≡ text =
      take-append_le 12 text n (omega arith) ∙ take_all 12 text (omega arith) in
    let back : drop 12 (text ++ n) ≡ n = drop-append_ge 12 0 text n (omega arith) in
    let done = words_id svid conid n hs hc in
    (
      rw (long, front, back, decode_id svid conid) done,
      rw (long, front, back, decode_id svid conid) done,
    )

-- On a name shorter than the ids the connection server's version throws, where the push server's
-- returns an error.
pub get_decoration_info_short :
    (dn : List ℕ)
    → length dn < 12
    → (get_decoration_info dn ≡ out_of_range (leb 8 (length (base64_decode (take 12 dn)))))
      × (logic_get_decoration_info dn ≡ rejected)
unfolding get_decoration_info logic_get_decoration_info
get_decoration_info_short dn h = ground arith
