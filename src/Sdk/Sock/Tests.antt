-- ===== src/Sdk/Sock/Tests.antt =====
-- Packets that the system takes and gives in pieces.
use gpush.Prelude.{◌<◌, ◌≤◌, ◌≡◌, ◌≢◌, refl, List, [], ◌++◌, ◌∷◌, none, some, take, arith}
use gpush.Sdk.Sock.{
  Arrival, bytes_in, arrived, interrupted, ended, left_over, receive_into, tcp_nb_receive, took,
  eintr, eagain, other, fails, send_from, tcp_send,
}
use gpush.Sdk.Sock.Answers.{tcp_send-doubled, tcp_nb_receive-bytes_in}

abbrev two_arrivals : List Arrival
two_arrivals = interrupted ∷ arrived 1 (2 ∷ []) ∷ arrived 3 (4 ∷ []) ∷ ended ∷ []

-- Room for three bytes takes those of two arrivals, and leaves one.
receive_three : tcp_nb_receive two_arrivals 3 ≡ (some (1 ∷ 2 ∷ 3 ∷ []), arrived 4 [] ∷ ended ∷ [])
unfolding tcp_nb_receive receive_into left_over
receive_three = refl

-- What came before the peer's end is lost.
receive_ended : tcp_nb_receive (arrived 1 (2 ∷ []) ∷ ended ∷ []) 8 ≡ (none, [])
unfolding tcp_nb_receive receive_into
receive_ended = refl

tcp_send_full :
    tcp_send other (fails eintr ∷ took 0 ∷ took 2 ∷ fails eagain ∷ []) (1 ∷ 2 ∷ 3 ∷ []) 3
    ≡ (1 ∷ 2 ∷ [], some 2)
unfolding tcp_send send_from
tcp_send_full = refl

tcp_send-doubled_example :
    (tcp_send other (took 3 ∷ []) (1 ∷ 2 ∷ 3 ∷ []) 3 ≡ (1 ∷ 2 ∷ 3 ∷ [], some 3))
    × ((tcp_send other (took 1 ∷ took 2 ∷ []) (1 ∷ 2 ∷ 3 ∷ []) 3).1 ≡ some 3)
    × ((tcp_send other (took 1 ∷ took 2 ∷ []) (1 ∷ 2 ∷ 3 ∷ []) 3).0 ≢ take 3 (1 ∷ 2 ∷ 3 ∷ []))
tcp_send-doubled_example =
    tcp_send-doubled other 3 1 (1 ∷ 2 ∷ 3 ∷ []) [] (omega arith) (omega arith) (omega arith)
      (omega arith)

tcp_nb_receive-bytes_in_example :
    (0 < 3)
    × (3 ≤ 3)
    × ((1 ∷ 2 ∷ 3 ∷ []) ++ bytes_in (tcp_nb_receive two_arrivals 3).1 ≡ bytes_in two_arrivals)
unfolding tcp_nb_receive receive_into
tcp_nb_receive-bytes_in_example = tcp_nb_receive-bytes_in two_arrivals 3 (1 ∷ 2 ∷ 3 ∷ []) refl
