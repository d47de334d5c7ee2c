-- ===== src/Sdk/Sock.antt =====
-- clientsdk/efnfw/net/ef_sock.cpp: `tcp_nb_receive` and the `tcp_send` of four parameters. What the
-- system's `recv` and `send` answer, call by call, is a list; behind its end they would block.
pub mod Answers
mod Tests
use gpush.Prelude.{
  ℕ, zero, suc, ◌+◌, ◌-◌, List, [], ◌∷◌, ◌++◌, Option, none, some, if◌then◌else◌, ltb, leb, ◌==◌,
  length, take, drop,
}

-- What has come to a socket: bytes, of which there is at least one; an interrupted call; a moment with
-- nothing to read; the peer's end or an error.
pub data Arrival : Type 0 where
  arrived : ℕ → List ℕ → Arrival
  interrupted again ended : Arrival

-- The bytes that have come, whatever lies between them.
unfoldable pub bytes_in : List Arrival → List ℕ
bytes_in [] = []
bytes_in (arrived b bs ∷ later) = (b ∷ bs) ++ bytes_in later
bytes_in (interrupted ∷ later) = bytes_in later
bytes_in (again ∷ later) = bytes_in later
bytes_in (ended ∷ later) = bytes_in later

-- One call of `recv` for bytes leaves those that it had no room for.
unfoldable pub left_over : ℕ → List ℕ → List Arrival → List Arrival
left_over n bs later = elim (drop n bs) [ [] ↦ later | b ∷ more ↦ arrived b more ∷ later ]

-- The loop around `recv`: the bytes, or none for a result below 0, and what is still to come.
unfoldable pub receive_into : List Arrival → ℕ → Option (List ℕ) × List Arrival
unfolding left_over
receive_into [] room = (some [], [])
receive_into (arrived b bs ∷ later) room =
    let (rest, after) = receive_into later (room - length (b ∷ bs)) in
    if ltb (length (b ∷ bs)) room
    then (elim rest [ none ↦ none | some more ↦ some ((b ∷ bs) ++ more) ], after)
    else (some (take room (b ∷ bs)), left_over room (b ∷ bs) later)
receive_into (interrupted ∷ later) room = receive_into later room
receive_into (again ∷ later) room = (some [], later)
receive_into (ended ∷ later) room = (none, later)

unfoldable pub tcp_nb_receive : List Arrival → ℕ → Option (List ℕ) × List Arrival
unfolding receive_into
tcp_nb_receive come room = if room == 0 then (none, come) else receive_into come room

-- What `errno` may be.
pub data Errno : Type 0 where
  eintr eagain other : Errno

-- What `send` answers: how many bytes it took, at most those asked for; or -1 with an `errno`.
pub data Answer : Type 0 where
  took : ℕ → Answer
  fails : Errno → Answer

-- The loop around `send`. `memory` is what lies at the address of the buffer and behind it, `size` the
-- number of bytes not sent. Both the address and the offset move on by what was taken. If none were,
-- `errno` is looked at, which a call that returns 0 leaves as it was.
unfoldable pub send_from : Errno → List Answer → List ℕ → ℕ → ℕ → ℕ → List ℕ × Option ℕ
send_from e [] memory at size done = ([], some done)
send_from e (took (suc k) ∷ later) memory at size done =
    let n = suc k in
    let (wire, ret) = send_from e later memory (at + n) (size - n) (done + n) in
    let piece = take n (drop (at + done) memory) in
    if leb size n then (piece, some (done + n)) else (piece ++ wire, ret)
send_from eintr (took zero ∷ later) memory at size done = send_from eintr later memory at size done
send_from eagain (took zero ∷ later) memory at size done = ([], some done)
send_from other (took zero ∷ later) memory at size done = ([], none)
send_from e (fails eintr ∷ later) memory at size done = send_from eintr later memory at size done
send_from e (fails eagain ∷ later) memory at size done = ([], some done)
send_from e (fails other ∷ later) memory at size done = ([], none)

-- The bytes that go out, and the result, none below 0; `errno` is what it was before.
unfoldable pub tcp_send : Errno → List Answer → List ℕ → ℕ → List ℕ × Option ℕ
unfolding send_from
tcp_send e answers memory size =
    if size == 0 then ([], none) else send_from e answers memory 0 size 0
