-- ===== src/Net/Connection/Tests.antt =====
-- Receiving at a connection that keeps the packets it is given.
use gpush.Prelude.{ℕ, ◌≡◌, refl, List, [], ◌∷◌, ◌++◌, Bool, true, arith, take, drop}
use gpush.Base.LoopBuf.{new_buf, alloc_frame, free_frame_len}
use gpush.Base.LoopBuf.Frames.{free_size}
use gpush.Base.LoopBuf.Invariant.{contents}
use gpush.Base.LoopBuf.Extend.{new_buf-IsValid}
use gpush.Proto.{Head, construct_packet, check_len, head_bytes, len_check, head_at}
use gpush.Proto.Word.{bytes_of, word_at, htonl}
use gpush.Proto.Framing.{check_bytes}
use gpush.Net.Connection.{handle_read, came, with_room}
use gpush.Net.Connection.Stream.{
  parse, packets, waiting, ended, deliver, packets-append, packets-append_ended,
}
use gpush.Net.Connection.Delivery.{packets_of, wire, handle_read-wire}
use gpush.Net.Connection.Receive.{Shows, handle_read-Shows}

-- The log of the packets, newest first; an empty body is refused.
abbrev keep : List (List ℕ) → List ℕ → List (List ℕ) × Bool
keep log req = (req ∷ log, true)

abbrev ping : Head
ping = record { magic = 1; len = 0; cmd = 0 }

-- A packet, and one that comes in two parts.
abbrev second : List ℕ
second = construct_packet ping (5 ∷ [])

abbrev first_part : List ℕ
first_part = construct_packet ping [] ++ take 5 second

packets-first_part :
    packets keep first_part [] ≡ waiting (take 5 second) (construct_packet ping [] ∷ [])
unfolding packets parse check_bytes construct_packet head_bytes bytes_of len_check head_at word_at
    htonl
packets-first_part = refl

packets_cut :
    packets keep (first_part ++ drop 5 second) []
    ≡ packets keep (take 5 second ++ drop 5 second) (construct_packet ping [] ∷ [])
packets_cut =
    packets-append keep first_part (drop 5 second) (take 5 second) []
      (construct_packet ping [] ∷ []) packets-first_part

-- A header whose length is 0 ends the connection.
abbrev zeros : List ℕ
zeros = 0 ∷ 0 ∷ 0 ∷ 0 ∷ 0 ∷ 0 ∷ 0 ∷ 0 ∷ 0 ∷ 0 ∷ 0 ∷ 0 ∷ []

packets-zeros : packets keep zeros [] ≡ ended []
unfolding packets parse check_bytes len_check head_at word_at htonl
packets-zeros = refl

zeros_ended : packets keep (zeros ++ (7 ∷ [])) [] ≡ ended []
zeros_ended = packets-append_ended keep zeros (7 ∷ []) [] [] packets-zeros

handle_read-Shows_example :
    Shows
      (handle_read check_len keep 20 new_buf [] (came (construct_packet ping (5 ∷ []))))
      (packets keep (contents new_buf ++ construct_packet ping (5 ∷ [])) [])
unfolding with_room free_frame_len free_size new_buf alloc_frame construct_packet head_bytes
    bytes_of
handle_read-Shows_example =
    handle_read-Shows keep 20 new_buf [] (construct_packet ping (5 ∷ [])) new_buf-IsValid
      (omega arith) (omega arith) (omega arith)

-- Two packets at once, to a connection that keeps them.
abbrev two_pings : List (Head × List ℕ)
two_pings = (ping, 5 ∷ []) ∷ (ping, []) ∷ []

handle_read-wire_example :
    Shows
      (handle_read check_len keep 30 new_buf []
        (came (wire (packets_of construct_packet two_pings))))
      (deliver keep (packets_of construct_packet two_pings) [])
unfolding with_room free_frame_len free_size new_buf alloc_frame construct_packet head_bytes
    bytes_of
handle_read-wire_example =
    handle_read-wire keep 30 new_buf [] (wire (packets_of construct_packet two_pings)) two_pings
      new_buf-IsValid (omega arith) (omega arith) (omega arith) (omega arith) refl
