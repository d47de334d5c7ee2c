-- ===== src/Sdk/Client/Receive.antt =====
-- What the client's `handleRead` puts into the ring, whatever the pieces in which it comes.
use gpush.Prelude.{
  ℕ, zero, suc, ◌+◌, ◌-◌, ◌*◌, ◌%◌, ◌<◌, ◌≤◌, ◌≡◌, refl, ap, ◌∙◌, inl, inr, List, [], ◌∷◌, ◌++◌,
  Option, some, true, false, ltb, ◌==◌, Bool-cases, Option-cases, arith, length, take, drop,
  length-take, length-append, append_assoc, take_all,
}
use native.Mathlib.Nat.{mod-lt}
use gpush.Sdk.RingBuf.{RingBuf, next_part_len, real_write, write, resize}
use gpush.Sdk.RingBuf.Places.{IsValid, contents, length-contents}
use gpush.Sdk.RingBuf.Write.{write-contents}
use gpush.Sdk.RingBuf.Resize.{resize-contents}
use gpush.Sdk.Sock.{
  Arrival, arrived, interrupted, again, ended, bytes_in, left_over, receive_into, tcp_nb_receive,
}
use gpush.Sdk.Sock.Answers.{receive_into_lem}
use gpush.Sdk.Client.Packets.{received, with_room, Received, broken, filled, receive_loop}

-- Bytes that fit behind the last one are written as `write` would write them.
received-write :
    (b : RingBuf) (bytes : List ℕ)
    → length bytes ≤ next_part_len b
    → received b bytes ≡ (write b bytes).1
unfolding received write real_write next_part_len
received-write b bytes fits =
    let all : ltb (b.cap - b.size) (length bytes) ≡ false = ground arith in
    let near : ltb (b.cap - (b.start + b.size) % b.cap) (length bytes) ≡ false = ground arith in
    rw (all, near, take_all (length bytes) bytes (omega arith)) refl

received-contents :
    (b : RingBuf) (bytes : List ℕ)
    → IsValid b
    → length bytes ≤ next_part_len b
    → (contents (received b bytes) ≡ contents b ++ bytes) × IsValid (received b bytes)
unfolding next_part_len
received-contents b bytes v fits =
    let (text, count, valid) = write-contents b bytes v in
    rw (received-write b bytes fits) (
      text ∙ ap (λ (l : List ℕ). contents b ++ l) (take_all (b.cap - b.size) bytes (ground arith)),
      valid,
    )

-- There is room behind the last byte, but in a full ring.
no_room : (b : RingBuf) → IsValid b → (next_part_len b == 0) ≡ true → b.cap ≤ b.size
unfolding next_part_len
no_room b v e = ground (arith, mod-lt (b.start + b.size) v.some_room)

room_lem : (b : RingBuf) → IsValid b → b.size < b.cap → 0 < next_part_len b
unfolding next_part_len
room_lem b v l = ground (arith, mod-lt (b.start + b.size) v.some_room)

resize-cap : (b : RingBuf) (cap : ℕ) → (resize b cap).1.cap ≡ cap
unfolding resize
resize-cap b cap = refl

resized :
    (b : RingBuf)
    → IsValid b
    → b.cap ≤ b.size
    → (contents (resize b (b.cap + 16 * 1024)).1 ≡ contents b)
      × IsValid (resize b (b.cap + 16 * 1024)).1
      × (0 < next_part_len (resize b (b.cap + 16 * 1024)).1)
resized b v full =
    let big = b.cap + 16 * 1024 in
    let (text, valid) = resize-contents b big v (omega arith) in
    let old = length-contents b v in
    let same : contents (resize b big).1 ≡ contents b =
      text ∙ take_all big (contents b) (omega arith) in
    let size = length-contents (resize b big).1 valid in
    let cap = resize-cap b big in
    (same, valid, room_lem (resize b big).1 valid (omega (arith, ap length same)))

with_room_lem :
    (b : RingBuf)
    → IsValid b
    → (contents (with_room b) ≡ contents b)
      × IsValid (with_room b)
      × (0 < next_part_len (with_room b))
unfolding with_room
with_room_lem b v = elim (Bool-cases (next_part_len b == 0)) [
  | inl full ↦ rw full (resized b v (no_room b v full))
  | inr some_room ↦ rw some_room (refl, v, (ground arith))
]

-- Nothing but bytes and interrupted calls: the peer is there.
unfoldable pub IsSteady : List Arrival → Type 0
IsSteady [] = Unit
IsSteady (arrived b bs ∷ later) = IsSteady later
IsSteady (interrupted ∷ later) = IsSteady later
IsSteady (again ∷ later) = ⊥
IsSteady (ended ∷ later) = ⊥

more-IsSteady :
    (ds : List ℕ) (later : List Arrival)
    → IsSteady later
    → IsSteady (elim ds [ [] ↦ later | b ∷ more ↦ arrived b more ∷ later ])
unfolding IsSteady
more-IsSteady [] later h = h
more-IsSteady (b ∷ more) later h = h

-- A call on such a socket gives bytes, and none only when there are none.
record Steady (come : List Arrival) (room : ℕ) (out : Option (List ℕ) × List Arrival) : Type 0 where
  pub got : List ℕ
  pub gives : out.0 ≡ some got
  pub stays : IsSteady out.1
  pub all : 0 < room → got ≡ [] → bytes_in come ≡ []

arrived-Steady :
    (b : ℕ) (bs : List ℕ) (later : List Arrival) (room : ℕ)
    → IsSteady later
    → Steady later (room - length (b ∷ bs)) (receive_into later (room - length (b ∷ bs)))
    → Steady (arrived b bs ∷ later) room (receive_into (arrived b bs ∷ later) room)
unfolding receive_into left_over
arrived-Steady b bs later room h next = elim (Bool-cases (ltb (length (b ∷ bs)) room)) [
  | inl short ↦
      let g = next.gives in
      record {
        got = (b ∷ bs) ++ next.got;
        gives = rw (short, receive_into) (rw g refl);
        stays = rw (short, receive_into) next.stays;
        all = λ some_room none_got. absurd (cc none_got);
      }
  | inr long ↦ record {
    got = take room (b ∷ bs);
    gives = rw (long, receive_into) refl;
    stays = rw (long, receive_into) (more-IsSteady (drop room (b ∷ bs)) later h);
    all =
        λ some_room none_got. absurd (omega (arith, ap length none_got, length-take room (b ∷ bs)));
  }
]

receive_into-Steady :
    (come : List Arrival) (room : ℕ) → IsSteady come → Steady come room (receive_into come room)
unfolding receive_into IsSteady bytes_in
receive_into-Steady [] room h = record {
  got = [];
  gives = refl;
  stays = h;
  all = λ some_room none_got. refl;
}
receive_into-Steady (arrived b bs ∷ later) room h =
    arrived-Steady b bs later room h (receive_into-Steady later (room - length (b ∷ bs)) h)
receive_into-Steady (interrupted ∷ later) room h =
    let next = receive_into-Steady later room h in
    record { got = next.got; gives = next.gives; stays = next.stays; all = next.all }
receive_into-Steady (again ∷ later) room h = absurd h
receive_into-Steady (ended ∷ later) room h = absurd h

-- How the loop may end: broken off, as the socket was not steady; or with a ring that holds all that
-- was received, in order, what is left being nothing for a steady one.
pub data Fills (come : List Arrival) (b : RingBuf) : Received → Type 0 where
  breaks : (b' : RingBuf) → IsValid b' → (IsSteady come → ⊥) → Fills come b (broken b')
  fills :
      (b' : RingBuf) (later : List Arrival)
      → IsValid b'
      → contents b' ++ bytes_in later ≡ contents b ++ bytes_in come
      → (IsSteady come → bytes_in later ≡ [])
      → Fills come b (filled b' later)

Fills-trans :
    (come later : List Arrival) (b next : RingBuf) (out : Received)
    → contents next ++ bytes_in later ≡ contents b ++ bytes_in come
    → (IsSteady come → IsSteady later)
    → Fills later next out
    → Fills come b out
Fills-trans come later b next out e on (breaks b' v not_steady) =
    breaks b' v (λ h. not_steady (on h))
Fills-trans come later b next out e on (fills b' after v kept all) =
    fills b' after v (kept ∙ e) (λ h. all (on h))

tcp_nb_receive_lem :
    (come : List Arrival) (room : ℕ) → 0 < room → tcp_nb_receive come room ≡ receive_into come room
unfolding tcp_nb_receive
tcp_nb_receive_lem come room p =
    let some_room : (room == 0) ≡ false = ground arith in rw some_room refl

-- The loop of `handleRead` always ends, in one of these ways.
pub receive_loop-Fills :
    (rounds : ℕ) (come : List Arrival) (b : RingBuf)
    → IsValid b
    → length (bytes_in come) < rounds
    → Fills come b (receive_loop rounds come b)
unfolding receive_loop
receive_loop-Fills zero come b v less = absurd (omega arith)
receive_loop-Fills (suc rounds) come b v less =
    let roomy = with_room b in
    let room = next_part_len roomy in
    let (text, valid, some_room) = with_room_lem b v in
    let call = tcp_nb_receive_lem come room some_room in
    elim (Option-cases (receive_into come room).0) [
      | inl lost ↦
          rw (call, lost, receive_loop)
            (breaks roomy valid (λ h.
              let steady = receive_into-Steady come room h in
              let given = steady.gives in absurd (cc (lost, given))))
      | inr ([], e) ↦
          let (kept, few) = receive_into_lem come room [] e in
          rw (call, e, receive_loop)
            (rw call (
              fills roomy (receive_into come room).1 valid
                (ap (λ (l : List ℕ). contents roomy ++ l) kept
                  ∙ ap (λ (l : List ℕ). l ++ bytes_in come) text)
                (λ h.
                  let steady = receive_into-Steady come room h in
                  let given = steady.gives in kept ∙ steady.all some_room (cc (e, given)))))
      | inr (x ∷ xs, e) ↦
          let (kept, few) = receive_into_lem come room (x ∷ xs) e in
          let (longer, valid') = received-contents roomy (x ∷ xs) valid few in
          let later = (receive_into come room).1 in
          let next = received roomy (x ∷ xs) in
          let total = length-append (x ∷ xs) (bytes_in later) in
          rw (call, e, receive_loop)
            (rw call (
              Fills-trans come later b next (receive_loop rounds later next)
                (ap (λ (l : List ℕ). l ++ bytes_in later) longer
                  ∙ append_assoc (contents roomy) (x ∷ xs) (bytes_in later)
                  ∙ ap (λ (l : List ℕ). contents roomy ++ l) kept
                  ∙ ap (λ (l : List ℕ). l ++ bytes_in come) text)
                (λ h. (receive_into-Steady come room h).stays)
                (receive_loop-Fills rounds later next valid' (omega (arith, ap length kept)))))
    ]
