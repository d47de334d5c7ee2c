-- ===== src/Sdk/Sock/Answers.antt =====
-- What the calls make of the system's answers.
use gpush.Prelude.{
  ℕ, zero, suc, ◌+◌, ◌-◌, ◌<◌, ◌≤◌, ◌≡◌, ◌≢◌, refl, ap, sym, ◌∙◌, inl, inr, List, [], ◌∷◌, ◌++◌,
  Option, some, Bool-cases, Option-cases, true, false, ltb, leb, arith, length, take, drop, get_or,
  length-append, length-take, append_assoc, take-append-drop, ◌==◌,
}
use gpush.Sdk.Sock.{
  Arrival, arrived, interrupted, again, ended, left_over, receive_into, tcp_nb_receive, Answer,
  Errno, took, send_from, tcp_send, bytes_in,
}
use gpush.Sdk.RingBuf.Places.{get_or-append, get_or-take, get_or-drop}

more_bytes :
    (ds : List ℕ) (later : List Arrival)
    → bytes_in (elim ds [ [] ↦ later | b ∷ more ↦ arrived b more ∷ later ]) ≡ ds ++ bytes_in later
unfolding bytes_in
more_bytes [] later = refl
more_bytes (b ∷ more) later = refl

left_over-bytes_in :
    (n : ℕ) (bs : List ℕ) (later : List Arrival)
    → bytes_in (left_over n bs later) ≡ drop n bs ++ bytes_in later
unfolding left_over
left_over-bytes_in n bs later = more_bytes (drop n bs) later

-- What is received and what is left make up what had come, and no more is received than there is
-- room for.
pub receive_into_lem :
    (come : List Arrival) (room : ℕ) (got : List ℕ)
    → (receive_into come room).0 ≡ some got
    → (got ++ bytes_in (receive_into come room).1 ≡ bytes_in come) × (length got ≤ room)
unfolding receive_into bytes_in
receive_into_lem [] room got e = let nothing : got ≡ [] = cc e in rw nothing (refl, (omega arith))
receive_into_lem (arrived b bs ∷ later) room got e =
    elim (Bool-cases (ltb (length (b ∷ bs)) room)) [
      | inl short ↦ elim (Option-cases (receive_into later (room - length (b ∷ bs))).0) [
        | inl lost ↦ absurd (cc (rw (short, lost) at e))
        | inr (more, kept) ↦
            let (whole, fits) = receive_into_lem later (room - length (b ∷ bs)) more kept in
            let got_lem : got ≡ (b ∷ bs) ++ more = cc (rw (short, kept) at e) in
            rw (short, got_lem)
              (
                append_assoc (b ∷ bs) more _ ∙ ap (λ (l : List ℕ). (b ∷ bs) ++ l) whole,
                (ground (arith, length-append (b ∷ bs) more)),
              )
      ]
      | inr long ↦
          let got_lem : got ≡ take room (b ∷ bs) = cc (rw long at e) in
          rw (long, got_lem)
            (
              ap (λ (l : List ℕ). take room (b ∷ bs) ++ l) (left_over-bytes_in room (b ∷ bs) later)
                  ∙ sym (append_assoc (take room (b ∷ bs)) (drop room (b ∷ bs)) (bytes_in later))
                  ∙ ap (λ (l : List ℕ). l ++ bytes_in later) (take-append-drop room (b ∷ bs)),
              (omega (arith, length-take room (b ∷ bs))),
            )
    ]
receive_into_lem (interrupted ∷ later) room got e = receive_into_lem later room got e
receive_into_lem (again ∷ later) room got e =
    let nothing : got ≡ [] = cc e in rw nothing (refl, (omega arith))
receive_into_lem (ended ∷ later) room got e = absurd (cc e)

send_from_last :
    (e : Errno) (m : ℕ) (memory : List ℕ) (later : List Answer) (at done : ℕ)
    → 0 < m
    → send_from e (took m ∷ later) memory at m done
      ≡ (take m (drop (at + done) memory), some (done + m))
unfolding send_from
send_from_last e zero memory later at done p = absurd (omega arith)
send_from_last e (suc k) memory later at done p =
    let all : leb (suc k) (suc k) ≡ true = ground arith in rw all refl

-- A piece that is not the last.
send_from_part :
    (e : Errno) (n size : ℕ) (memory : List ℕ) (later : List Answer) (at done : ℕ)
    → 0 < n
    → n < size
    → send_from e (took n ∷ later) memory at size done ≡ (
        let (wire, ret) = send_from e later memory (at + n) (size - n) (done + n) in
        (take n (drop (at + done) memory) ++ wire, ret))
unfolding send_from
send_from_part e zero size memory later at done p l = absurd (omega arith)
send_from_part e (suc k) size memory later at done p l =
    let part : leb size (suc k) ≡ false = ground arith in rw part refl

-- A packet that the system takes in one piece is sent as it is.
pub tcp_send_whole :
    (e : Errno) (size : ℕ) (memory : List ℕ) (later : List Answer)
    → 0 < size
    → tcp_send e (took size ∷ later) memory size ≡ (take size memory, some size)
unfolding tcp_send
tcp_send_whole e size memory later p =
    let some_size : (size == 0) ≡ false = ground arith in
    let sum : 0 + size ≡ size = omega arith in
    rw some_size
      (send_from_last e size memory later 0 0 p ∙ ap (λ (k : ℕ). (take size memory, some k)) sum)

-- The second piece is taken from behind the place that is due.
tcp_send_pieces :
    (e : Errno) (size n : ℕ) (memory : List ℕ) (later : List Answer)
    → 0 < n
    → n < size
    → tcp_send e (took n ∷ took (size - n) ∷ later) memory size
      ≡ (take n memory ++ take (size - n) (drop (n + n) memory), some size)
unfolding tcp_send
tcp_send_pieces e size n memory later p l =
    let some_size : (size == 0) ≡ false = ground arith in
    let sum : 0 + n ≡ n = omega arith in
    let total : n + (size - n) ≡ size = omega arith in
    rw some_size (
      send_from_part e n size memory (took (size - n) ∷ later) 0 0 p l
      ∙ ap
          (λ (k : ℕ).
            (let r = send_from e (took (size - n) ∷ later) memory k (size - n) k in
              (take n memory ++ r.0, r.1)))
          sum
      ∙ ap (λ (r : List ℕ × Option ℕ). (take n memory ++ r.0, r.1))
          (send_from_last e (size - n) memory later n n (omega arith))
      ∙ ap (λ (k : ℕ). (take n memory ++ take (size - n) (drop (n + n) memory), some k)) total)

byte_at_piece :
    (size n : ℕ) (memory : List ℕ)
    → n < size
    → size ≤ length memory
    → get_or (take n memory ++ take (size - n) (drop (n + n) memory)) n 0 ≡ get_or memory (n + n) 0
byte_at_piece size n memory l enough =
    let first : length (take n memory) ≡ n = omega (arith, length-take n memory) in
    let at : ltb n n ≡ false = ground arith in
    let zero_left : n - n ≡ 0 = omega arith in
    let some_left : ltb 0 (size - n) ≡ true = ground arith in
    let sum : n + n + 0 ≡ n + n = omega arith in
    get_or-append (take n memory) (take (size - n) (drop (n + n) memory)) n
    ∙ (rw (first, at, zero_left)
        (get_or-take (size - n) (drop (n + n) memory) 0
          ∙ (rw some_left (get_or-drop (n + n) memory 0 ∙ ap (λ (k : ℕ). get_or memory k 0) sum))))

-- A packet that the system takes whole goes out as it is. One that it takes in two pieces is reported
-- as sent alike, but is not what goes out, where the byte behind the first piece is not the one as far
-- again behind it.
pub tcp_send-doubled :
    (e : Errno) (size n : ℕ) (memory : List ℕ) (later : List Answer)
    → 0 < n
    → n < size
    → size ≤ length memory
    → get_or memory n 0 ≢ get_or memory (n + n) 0
    → (tcp_send e (took size ∷ later) memory size ≡ (take size memory, some size))
      × ((tcp_send e (took n ∷ took (size - n) ∷ later) memory size).1 ≡ some size)
      × ((tcp_send e (took n ∷ took (size - n) ∷ later) memory size).0 ≢ take size memory)
tcp_send-doubled e size n memory later p l enough differ =
    let pieces = tcp_send_pieces e size n memory later p l in
    let within : ltb n size ≡ true = ground arith in
    let due : get_or (take size memory) n 0 ≡ get_or memory n 0 =
      get_or-take size memory n ∙ (rw within refl) in
    (
      tcp_send_whole e size memory later (omega arith),
      ap (λ (out : List ℕ × Option ℕ). out.1) pieces,
      λ same. differ (
          sym due
          ∙ ap (λ (out : List ℕ). get_or out n 0)
              (sym same ∙ ap (λ (out : List ℕ × Option ℕ). out.0) pieces)
          ∙ byte_at_piece size n memory l enough),
    )

-- A call for bytes gives at most as many as it has room for. They and what is left are all that had
-- come, in order. A call without room fails.
pub tcp_nb_receive-bytes_in :
    (come : List Arrival) (room : ℕ) (got : List ℕ)
    → (tcp_nb_receive come room).0 ≡ some got
    → (0 < room)
      × (length got ≤ room)
      × (got ++ bytes_in (tcp_nb_receive come room).1 ≡ bytes_in come)
unfolding tcp_nb_receive
tcp_nb_receive-bytes_in come room got e = elim (Bool-cases (room == 0)) [
  | inl none_left ↦ absurd (cc (rw none_left at e))
  | inr some_left ↦
      let (kept, fits) = receive_into_lem come room got (rw some_left at e) in
      rw some_left ((ground arith), fits, kept)
]
