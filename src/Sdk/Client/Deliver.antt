-- ===== src/Sdk/Client/Deliver.antt =====
-- The client's `handleRead` on a stream of packets.
use gpush.Prelude.{
  ℕ, zero, suc, ◌^◌, ◌<◌, ◌≤◌, ◌≡◌, ◌≢◌, refl, ap, sym, ◌∙◌, inl, inr, List, [], ◌∷◌, ◌++◌, Option,
  none, some, arith, length, length-append, append_assoc, append-nil, Option-cases, All,
}
use mathlib.Core.Path.{subst}
use gpush.Proto.{Head, construct_packet}
use gpush.Proto.Framing.{length-construct_packet}
use gpush.Net.Connection.Delivery.{packets_of, wire}
use gpush.Sdk.RingBuf.{RingBuf}
use gpush.Sdk.RingBuf.Places.{IsValid, contents, length-contents}
use gpush.Sdk.Sock.{Arrival, bytes_in}
use gpush.Sdk.Client.{Env, CliConn, Io, gettime_ms}
use gpush.Sdk.Client.Packets.{
  Outcome, failed, endless, handle_received, waits, fault, spinning, packet_loop, Received, handled,
  handle_packet, handle_packets, handle_read, filled, receive_loop,
}
use gpush.Sdk.Client.Round.{IsPartial, waiting_lem, packet_lem, packet_loop_ends}
use gpush.Sdk.Client.Receive.{Fills, fills, breaks, IsSteady, receive_loop-Fills}

-- How the loop ends, by what the messages were made of.
data Delivered {S : Type 0} (rest : List ℕ) : Option S → Outcome S → Type 0 where
  delivered :
      (b : RingBuf) (s : S) → IsValid b → contents b ≡ rest → Delivered rest (some s) (waits b s)
  faulty : Delivered rest none fault

-- What the handler makes of the messages, one by one.
module _ {S : Type 0} (handle : S → ℕ → List ℕ → Option S) where
  unfoldable pub handle_all : List (Head × List ℕ) → S → Option S
  handle_all [] s = some s
  handle_all ((h, body) ∷ ms) s = elim (handle s h.cmd body) [
    | none ↦ none
    | some s' ↦ handle_all ms s'
  ]

  -- The messages are handled in order, whole ones only.
  packet_loop-Delivered :
      (ms : List (Head × List ℕ)) (rest : List ℕ) (rounds : ℕ) (b : RingBuf) (s : S)
      → IsValid b
      → length (contents b) < 2 ^ 31
      → All (λ (m : Head × List ℕ). m.0.cmd < 2 ^ 32) ms
      → contents b ≡ wire (packets_of construct_packet ms) ++ rest
      → IsPartial rest
      → length ms < rounds
      → Delivered rest (handle_all ms s) (packet_loop handle rounds b s)
  unfolding handle_all
  packet_loop-Delivered ms rest zero b s v small cmds e part few = absurd (omega arith)
  packet_loop-Delivered [] rest (suc rounds) b s v small cmds e part few =
      subst (Delivered rest (some s))
        (sym (waiting_lem handle rounds b s v (subst IsPartial (sym e) part))) (delivered b s v e)
  packet_loop-Delivered ((h, body) ∷ ms) rest (suc rounds) b s v small cmds e part few =
      let tail = wire (packets_of construct_packet ms) ++ rest in
      let e' : contents b ≡ construct_packet h body ++ tail =
        e ∙ append_assoc (construct_packet h body) (wire (packets_of construct_packet ms)) rest in
      let (b', v', left, go) = packet_lem handle rounds b s h body tail v small cmds.0 e' in
      let fewer : length (contents b') < 2 ^ 31 =
        omega (arith, ap length left, ap length e', length-append (construct_packet h body) tail) in
      elim (Option-cases (handle s h.cmd body)) [
        | inl refused ↦
            let all : handle_all ((h, body) ∷ ms) s ≡ none = rw (refused, handle_all) refl in
            rw (all, go) (rw refused faulty)
        | inr (s', taken) ↦
            let all : handle_all ((h, body) ∷ ms) s ≡ handle_all ms s' =
              rw (taken, handle_all) refl in
            rw (all, go)
              (rw taken (
                packet_loop-Delivered ms rest rounds b' s' v' fewer cmds.1 left part (omega arith)))
      ]

received_all :
    (come : List Arrival) (b : RingBuf) (out : Received)
    → IsSteady come
    → Fills come b out
    → (later : List Arrival) × (b' : RingBuf) × (out ≡ filled b' later)
      × (contents b' ≡ contents b ++ bytes_in come)
      × IsValid b'
received_all come b out steady (breaks b' v not_steady) = absurd (not_steady steady)
received_all come b out steady (fills b' later v kept all) =
    let none_left = all steady in
    (
      later,
      b',
      refl,
      sym (append-nil (contents b')) ∙ ap (λ (l : List ℕ). contents b' ++ l) (sym none_left) ∙ kept,
      v,
    )

waits-Delivered :
    {S : Type 0} (rest : List ℕ) (given : Option S) (out : Outcome S) (s : S)
    → given ≡ some s
    → Delivered rest given out
    → (b : RingBuf) × (out ≡ waits b s) × (contents b ≡ rest) × IsValid b
waits-Delivered rest given out s e (delivered b s' v left) =
    let same : s' ≡ s = cc e in (b, ap (waits b) same, left, v)
waits-Delivered rest given out s e faulty = absurd (cc e)

length-wire :
    (ms : List (Head × List ℕ)) → length ms ≤ length (wire (packets_of construct_packet ms))
length-wire [] = omega arith
length-wire ((h, body) ∷ ms) = omega (
  arith,
  length-wire ms,
  length-append (construct_packet h body) (wire (packets_of construct_packet ms)),
  length-construct_packet h body,
)

module _ (E : Env) where
  handled_lem :
      (now : ℕ) (b : RingBuf) (start : CliConn × Io) {w : CliConn × Io} {b' : RingBuf}
      → packet_loop (handle_packet E now) (suc b.size) b start ≡ waits b' w
      → handle_packets E now b start ≡ handled (record (w.0) { buf = b' }, w.1)
  unfolding handle_packets
  handled_lem now b start ends = rw (ends, handle_packets) refl

  -- With its socket there, it handles what it has received.
  handle_read_online :
      (now fd : ℕ) (come : List Arrival) (con : CliConn) (io : Io)
      → con.fd ≡ some fd
      → handle_read E now come (con, io)
        ≡ handle_received E now (receive_loop (suc (length (bytes_in come))) come con.buf) (con, io)
  unfolding handle_read
  handle_read_online now fd come con io online =
      let out =
        handle_received E now (receive_loop (suc (length (bytes_in come))) come con.buf)
          (con, io) in
      subst (λ (o : Option ℕ). elim o [ none ↦ failed (con, io) | some _ ↦ out ] ≡ out) (sym online)
        refl

  handle_read_offline :
      (now : ℕ) (come : List Arrival) (con : CliConn) (io : Io)
      → con.fd ≡ none
      → handle_read E now come (con, io) ≡ failed (con, io)
  unfolding handle_read
  handle_read_offline now come con io offline =
      let out =
        handle_received E now (receive_loop (suc (length (bytes_in come))) come con.buf)
          (con, io) in
      subst (λ (o : Option ℕ). elim o [ none ↦ failed (con, io) | some _ ↦ out ] ≡ failed (con, io))
        (sym offline) refl

  handle_received_lem :
      (now : ℕ) (out : Received) (b : RingBuf) (later : List Arrival) (con : CliConn) (io : Io)
      → out ≡ filled b later
      → handle_received E now out (con, io)
        ≡ handle_packets E now b (record con { active_time = gettime_ms now }, io)
  unfolding handle_received
  handle_received_lem now out b later con io e = rw e refl

  -- The bytes that wait in a valid ring, with those that come in whatever pieces, are whole packets of the
  -- connection server's and the beginning of another, of less than 2^31 bytes in all; neither the peer's
  -- end nor an error comes with them; and no call of `handlePacket` for one of the packets throws. Then
  -- `handleRead` hands each of the packets to `handlePacket`, in the order in which they were sent, and
  -- nothing else, and the beginning waits in a valid ring.
  pub handle_read-Delivered :
      (now fd : ℕ) (come : List Arrival) (con : CliConn) (io : Io) (ms : List (Head × List ℕ))
      (rest : List ℕ) (w : CliConn × Io)
      → con.fd ≡ some fd
      → IsValid con.buf
      → IsSteady come
      → contents con.buf ++ bytes_in come ≡ wire (packets_of construct_packet ms) ++ rest
      → length (contents con.buf ++ bytes_in come) < 2 ^ 31
      → All (λ (m : Head × List ℕ). m.0.cmd < 2 ^ 32) ms
      → IsPartial rest
      → handle_all (handle_packet E now) ms (record con { active_time = gettime_ms now }, io)
        ≡ some w
      → (b : RingBuf) × (handle_read E now come (con, io) ≡ handled (record (w.0) { buf = b }, w.1))
        × (contents b ≡ rest)
        × IsValid b
  handle_read-Delivered now fd come con io ms rest w online v steady e small cmds part all =
      let start : CliConn × Io = (record con { active_time = gettime_ms now }, io) in
      let rounds = suc (length (bytes_in come)) in
      let (later, b, out, text, v') =
        received_all come con.buf (receive_loop rounds come con.buf) steady
          (receive_loop-Fills rounds come con.buf v (omega arith)) in
      let whole = text ∙ e in
      let wired = wire (packets_of construct_packet ms) in
      let enough : length ms < suc b.size =
        omega (
          arith,
          length-wire ms,
          ap length whole,
          length-append wired rest,
          length-contents b v',
        ) in
      let (b', ends, left, v'') =
        waits-Delivered rest (handle_all (handle_packet E now) ms start)
          (packet_loop (handle_packet E now) (suc b.size) b start) w all
          (packet_loop-Delivered (handle_packet E now) ms rest (suc b.size) b start v'
            (omega (arith, ap length text)) cmds whole part enough) in
      (
        b',
        handle_read_online now fd come con io online
            ∙ handle_received_lem now (receive_loop rounds come con.buf) b later con io out
            ∙ handled_lem now b start ends,
        left,
        v'',
      )

  handle_packets_end :
      (now : ℕ) (b : RingBuf) (w : CliConn × Io) (out : Outcome (CliConn × Io))
      → packet_loop (handle_packet E now) (suc b.size) b w ≡ out
      → out ≢ spinning
      → handle_packets E now b w ≢ endless
  unfolding handle_packets
  handle_packets_end now b w (waits b' w') e h = rw (e, handle_packets) (λ x. absurd (cc x))
  handle_packets_end now b w fault e h = rw (e, handle_packets) (λ x. absurd (cc x))
  handle_packets_end now b w spinning e h = absurd (h refl)

  handle_received_ends :
      (now : ℕ) (come : List Arrival) (b : RingBuf) (out : Received) (con : CliConn) (io : Io)
      → Fills come b out
      → handle_received E now out (con, io) ≢ endless
  unfolding handle_received
  handle_received_ends now come b out con io (breaks b' v not_steady) = λ x. absurd (cc x)
  handle_received_ends now come b out con io (fills b' later v kept all) =
      let start : CliConn × Io = (record con { active_time = gettime_ms now }, io) in
      handle_packets_end now b' start _ refl (
        packet_loop_ends (handle_packet E now) (suc b'.size) b' start v
          (omega (arith, length-contents b' v)))

  -- `handleRead` ends whatever comes: its loops are in no need of more rounds than they are allowed.
  pub handle_read_ends :
      (now : ℕ) (come : List Arrival) (con : CliConn) (io : Io)
      → IsValid con.buf
      → handle_read E now come (con, io) ≢ endless
  handle_read_ends now come con io v = elim (Option-cases con.fd) [
    | inl offline ↦ rw (handle_read_offline now come con io offline) (λ x. absurd (cc x))
    | inr (fd, online) ↦ rw (handle_read_online now fd come con io online) (
        handle_received_ends now come con.buf _ con io
          (receive_loop-Fills (suc (length (bytes_in come))) come con.buf v (omega arith)))
  ]
