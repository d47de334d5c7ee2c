-- ===== src/Net/Connection/Receive.antt =====
-- `handleRead` hands on exactly the packets of the bytes that came, and always ends.
use gpush.Prelude.{
  ℕ, zero, suc, ◌*◌, ◌+◌, ◌<◌, ◌≤◌, ◌≡◌, refl, ap, ◌∙◌, inl, inr, List, [], ◌∷◌, ◌++◌, Bool, true,
  false, arith, length, length-append, take, some, Bool-cases, ◌==◌,
}
use mathlib.Core.Path.{subst}
use gpush.Base.LoopBuf.{LoopBuf, free_frame_len, read}
use gpush.Base.LoopBuf.Invariant.{contents, IsValid}
use gpush.Base.LoopBuf.Read.{read_lem}
use gpush.Base.LoopBuf.Extend.{extend-IsValid}
use gpush.Base.LoopBuf.Receive.{grow-store_free}
use gpush.Proto.{bad, wait, pack, check_len}
use gpush.Proto.Framing.{check_bytes_pack, check_len_lem}
use gpush.Net.Connection.{Outcome, open_at, closed, came, packet_loop, with_room, handle_read}
use gpush.Net.Connection.Stream.{
  View, waiting, ended, parse, packets, parse-bad, parse-wait, parse_on, parse_refused, parse_fuel,
  round, ends, waits, goes_on, refuses,
}

-- A connection's outcome shows a view of the stream: the bytes left in a well-formed buffer.
pub data Shows {S : Type 0} : Outcome S → View S → Type 0 where
  shows_open : (b : LoopBuf) (s : S) → IsValid b → Shows (open_at b s) (waiting (contents b) s)
  shows_closed : (s : S) → Shows (closed s) (ended s)

module _ {S : Type 0} (handle : S → List ℕ → S × Bool) (n : ℕ) (b : LoopBuf) (s : S) where
  loop-bad : check_len b ≡ bad → packet_loop check_len handle (suc n) b s ≡ closed s
  unfolding packet_loop
  loop-bad e = rw (e, packet_loop)

  loop-wait : check_len b ≡ wait → packet_loop check_len handle (suc n) b s ≡ open_at b s
  unfolding packet_loop
  loop-wait e = rw (e, packet_loop)

  module _ (len : ℕ) (req : List ℕ) (b' : LoopBuf) (e : check_len b ≡ pack len)
      (r : read (suc (suc (length b.chain.done))) b len ≡ some (req, b')) where
    loop_on :
        (handle s req).1 ≡ true
        → packet_loop check_len handle (suc n) b s
          ≡ packet_loop check_len handle n b' (handle s req).0
    unfolding packet_loop
    loop_on t = rw (e, packet_loop) (rw r (rw t))

    loop_refused :
        (handle s req).1 ≡ false
        → packet_loop check_len handle (suc n) b s ≡ closed (handle s req).0
    unfolding packet_loop
    loop_refused t = rw (e, packet_loop) (rw r (rw t))

module _ {S : Type 0} (handle : S → List ℕ → S × Bool) where
  packet_loop-Shows :
      (n : ℕ) (b : LoopBuf) (s : S)
      → IsValid b
      → length (contents b) < n
      → Shows (packet_loop check_len handle n b s) (parse handle n (contents b) s)
  packet_loop-Shows zero b s v h = elim h [ ]
  packet_loop-Shows (suc n) b s v h =
      let check = check_len_lem b v in
      elim (round handle (contents b) s) [
        | ends e ↦
            rw (loop-bad handle n b s (check ∙ e), parse-bad handle n (contents b) s e)
              (shows_closed s)
        | waits e ↦
            rw (loop-wait handle n b s (check ∙ e), parse-wait handle n (contents b) s e)
              (shows_open b s v)
        | goes_on len e t less ↦
            let bound = check_bytes_pack (contents b) len e in
            let (b', r, left, v') =
              read_lem (suc (suc (length b.chain.done))) b len v bound.1 (omega arith) in
            rw
              (
                loop_on handle n b s len _ b' (check ∙ e) r t,
                parse_on handle n (contents b) s len e t,
              )
              (subst
                (λ (l : List ℕ).
                  Shows (packet_loop check_len handle n b' (handle s (take len (contents b))).0)
                    (parse handle n l (handle s (take len (contents b))).0))
                left
                (packet_loop-Shows n b' (handle s (take len (contents b))).0 v'
                  (omega (arith, ap length left))))
        | refuses len e t ↦
            let bound = check_bytes_pack (contents b) len e in
            let (b', r, left, v') =
              read_lem (suc (suc (length b.chain.done))) b len v bound.1 (omega arith) in
            rw
              (
                loop_refused handle n b s len _ b' (check ∙ e) r t,
                parse_refused handle n (contents b) s len e t,
              )
              (shows_closed _)
      ]

  -- What comes into the buffer that `handleRead` made room in.
  with_room-IsValid :
      (b : LoopBuf) → IsValid b → IsValid (with_room b) × (contents (with_room b) ≡ contents b)
  unfolding with_room
  with_room-IsValid b v = elim (Bool-cases (free_frame_len b == 0)) [
    | inl e ↦ rw e (extend-IsValid b (16 * 1024) v)
    | inr e ↦ rw e (v, refl)
  ]

  -- With a round for each byte in the buffer, `handleRead` ends, and leaves the connection as the
  -- packets of the buffered and received bytes do.
  pub handle_read-Shows :
      (rounds : ℕ) (b : LoopBuf) (s : S) (bytes : List ℕ)
      → IsValid b
      → 0 < length bytes
      → length bytes ≤ free_frame_len (with_room b)
      → length (contents b) + length bytes < rounds
      → Shows
          (handle_read check_len handle rounds b s (came bytes))
          (packets handle (contents b ++ bytes) s)
  unfolding handle_read packets
  handle_read-Shows rounds b s [] v pos fits h = absurd (omega arith)
  handle_read-Shows rounds b s (x ∷ bytes) v pos fits h =
      let (w, same) = with_room-IsValid b v in
      let (b', g, now, v') = grow-store_free (with_room b) (x ∷ bytes) w (omega arith) fits in
      let all : contents b' ≡ contents b ++ (x ∷ bytes) =
        now ∙ ap (λ (t : List ℕ). t ++ (x ∷ bytes)) same in
      let total = length-append (contents b) (x ∷ bytes) in
      rw g (
        subst (Shows (packet_loop check_len handle rounds b' s))
          (ap (λ (l : List ℕ). parse handle rounds l s) all
            ∙ parse_fuel handle rounds (suc (length (contents b ++ (x ∷ bytes))))
                (contents b ++ (x ∷ bytes)) s (omega arith) (omega arith))
          (packet_loop-Shows rounds b' s v' (omega (arith, ap length all))))
