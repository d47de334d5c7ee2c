-- ===== src/Net/Connection/Delivery.antt =====
-- A stream of whole packets.
use gpush.Prelude.{
  ℕ, zero, suc, ◌+◌, ◌<◌, ◌≤◌, ◌≡◌, ap, sym, ◌∙◌, inl, inr, List, [], ◌∷◌, ◌++◌, Bool, arith,
  length, length-append, take, drop, take-append_le, drop-append_ge, take_all, Bool-cases,
}
use mathlib.Core.Path.{subst}
use gpush.Base.LoopBuf.{LoopBuf, free_frame_len}
use gpush.Base.LoopBuf.Invariant.{contents, IsValid}
use gpush.Proto.{check_len, pack, Head, sizeof_head, max_packet, construct_packet}
use gpush.Proto.Framing.{
  check_bytes, check_bytes-construct_packet, length-construct_packet, check_bytes-nil,
}
use gpush.Net.Connection.{came, with_room, handle_read}
use gpush.Net.Connection.Receive.{Shows, handle_read-Shows}
use gpush.Net.Connection.Stream.{parse, packets, parse-wait, parse_on, parse_refused, deliver}

-- What a peer sends for a list of messages.
abbrev pub packets_of : (Head → List ℕ → List ℕ) → List (Head × List ℕ) → List (List ℕ)
packets_of construct [] = []
packets_of construct ((h, body) ∷ ms) = construct h body ∷ packets_of construct ms

abbrev pub wire : List (List ℕ) → List ℕ
wire [] = []
wire (p ∷ ps) = p ++ wire ps

-- Each message fits in a packet.
abbrev pub AllFit : List (Head × List ℕ) → Type 0
AllFit [] = Unit
AllFit ((h, body) ∷ ms) = (sizeof_head + length body ≤ max_packet) × AllFit ms

module _ {S : Type 0} (handle : S → List ℕ → S × Bool) where
  parse_packet :
      (n : ℕ) (p rest : List ℕ) (s : S) (ps : List (List ℕ))
      → check_bytes (p ++ rest) ≡ pack (length p)
      → parse handle n rest (handle s p).0 ≡ deliver handle ps (handle s p).0
      → parse handle (suc n) (p ++ rest) s ≡ deliver handle (p ∷ ps) s
  unfolding deliver
  parse_packet n p rest s ps e ih =
      let front : take (length p) (p ++ rest) ≡ p =
        take-append_le (length p) p rest (omega arith) ∙ take_all (length p) p (omega arith) in
      let back : drop (length p) (p ++ rest) ≡ rest =
        drop-append_ge (length p) 0 p rest (omega arith) in
      elim (Bool-cases (handle s p).1) [
        | inl t ↦
            parse_on handle n (p ++ rest) s (length p) e (rw front t)
            ∙ (rw (front, back) (rw (t, deliver) ih))
        | inr t ↦
            parse_refused handle n (p ++ rest) s (length p) e (rw front t)
            ∙ (rw front (rw (t, deliver)))
      ]

  parse-wire :
      (n : ℕ) (ms : List (Head × List ℕ)) (s : S)
      → AllFit ms
      → length (wire (packets_of construct_packet ms)) < n
      → parse handle n (wire (packets_of construct_packet ms)) s
        ≡ deliver handle (packets_of construct_packet ms) s
  unfolding deliver
  parse-wire zero ms s fit h = elim h [ ]
  parse-wire (suc n) [] s fit h = parse-wait handle n [] s check_bytes-nil
  parse-wire (suc n) ((h, body) ∷ ms) s fit less =
      let p = construct_packet h body in
      let size = length-construct_packet h body in
      let total = length-append p (wire (packets_of construct_packet ms)) in
      parse_packet n p (wire (packets_of construct_packet ms)) s (packets_of construct_packet ms)
        ((check_bytes-construct_packet h body (wire (packets_of construct_packet ms)) fit.0).0
          ∙ ap pack (sym size))
        (parse-wire n ms (handle s p).0 fit.1 (omega arith))

  packets-wire :
      (ms : List (Head × List ℕ)) (s : S)
      → AllFit ms
      → packets handle (wire (packets_of construct_packet ms)) s
        ≡ deliver handle (packets_of construct_packet ms) s
  unfolding packets
  packets-wire ms s fit =
      parse-wire (suc (length (wire (packets_of construct_packet ms)))) ms s fit (omega arith)

  -- The bytes that wait in a well-formed buffer and those that come, which fit into the room that
  -- `handleRead` makes, are together whole packets of a server's, none above the largest length that
  -- `checkPackLen` takes. Then, within a round for each byte, `handleRead` ends and leaves the connection
  -- as handling the packets does, one by one in the order in which they were sent, up to the first that
  -- is refused; if none is, no bytes wait.
  pub handle_read-wire :
      (rounds : ℕ) (b : LoopBuf) (s : S) (bytes : List ℕ) (ms : List (Head × List ℕ))
      → IsValid b
      → 0 < length bytes
      → length bytes ≤ free_frame_len (with_room b)
      → length (contents b) + length bytes < rounds
      → AllFit ms
      → contents b ++ bytes ≡ wire (packets_of construct_packet ms)
      → Shows
          (handle_read check_len handle rounds b s (came bytes))
          (deliver handle (packets_of construct_packet ms) s)
  handle_read-wire rounds b s bytes ms v some_bytes fits enough fit whole =
      subst (Shows (handle_read check_len handle rounds b s (came bytes)))
        (ap (λ (l : List ℕ). packets handle l s) whole ∙ packets-wire ms s fit)
        (handle_read-Shows handle rounds b s bytes v some_bytes fits enough)
