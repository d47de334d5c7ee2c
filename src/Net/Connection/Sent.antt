-- ===== src/Net/Connection/Sent.antt =====
-- What the kernel took, with what still waits, is what was to be sent, in order.
use gpush.Prelude.{
  ℕ, zero, suc, ◌+◌, ◌-◌, ◌<◌, ◌≤◌, ◌≡◌, ◌≢◌, refl, ap, sym, ◌∙◌, inl, inr, List, [], ◌∷◌, ◌++◌,
  append_assoc, Option, some, true, false, arith, length, length-append, length-drop, take, drop,
  take-append_le, take-append-drop, All, Bool-cases, ◌==◌, ◌||◌, ltb, min,
}
use mathlib.Core.Logic.{◌⊎◌}
use mathlib.Core.Path.{subst}
use gpush.Base.LoopBuf.Frames.{Frame, IsFrame, window, length-window}
use gpush.Base.LoopBuf.{LoopBuf, read, first_frame, first_frame_len, first_frame_data}
use gpush.Base.LoopBuf.Invariant.{contents, contents_of, windows, IsValid}
use gpush.Base.LoopBuf.Read.{read_lem}
use gpush.Net.Connection.Send.{
  Errno, eintr, eagain, other, Answer, SendRet, sent, refused, Sender, send_bytes, send_loop,
}

-- A call that is not interrupted.
abbrev pub Calm : Answer → Type 0
Calm a = a.errno ≢ eintr

Errno-cases : (e : Errno) → (e ≡ eintr) ⊎ ((e ≡ eagain) ⊎ (e ≡ other))
Errno-cases eintr = inl refl
Errno-cases eagain = inr (inl refl)
Errno-cases other = inr (inr refl)

-- One call answers.
pub send_bytes-Calm :
    (a : Answer) (answers : List Answer) (bytes : List ℕ)
    → Calm a
    → ((n : ℕ) × (send_bytes (a ∷ answers) bytes ≡ some (sent n, answers)) × (n ≤ length bytes))
      ⊎ (send_bytes (a ∷ answers) bytes ≡ some (refused, answers))
unfolding send_bytes
send_bytes-Calm a answers bytes c = elim (Bool-cases (ltb 0 (min a.taken (length bytes)))) [
  | inl e ↦ inl (min a.taken (length bytes), rw e refl, omega arith)
  | inr e ↦ elim (Errno-cases a.errno) [
    | inl i ↦ absurd (c i)
    | inr (inl i) ↦ inl (0, rw e (rw i refl), omega arith)
    | inr (inr i) ↦ inr (rw e (rw i refl))
  ]
]

-- The first frame's bytes come first.
first_of :
    (done : List Frame) (cur : Frame) (n : ℕ)
    → n ≤ length (window (first_frame done cur))
    → (n ≤ length (contents_of done cur))
      × (take n (window (first_frame done cur)) ≡ take n (contents_of done cur))
unfolding first_frame
first_of [] cur n h = (h, refl)
first_of (f ∷ done) cur n h =
    let whole = append_assoc (window f) (windows done) (window cur) in
    let total = length-append (window f) (windows done ++ window cur) in
    (
      omega (arith, ap length whole),
      sym (take-append_le n (window f) (windows done ++ window cur) h) ∙ ap (take n) (sym whole),
    )

IsFrame-first :
    (done : List Frame) (cur : Frame)
    → All IsFrame done
    → IsFrame cur
    → IsFrame (first_frame done cur)
unfolding first_frame
IsFrame-first [] cur d c = c
IsFrame-first (f ∷ done) cur d c = d.0

first_lem :
    (b : LoopBuf) (n : ℕ)
    → n ≤ length (first_frame_data b)
    → (n ≤ length (contents b)) × (take n (first_frame_data b) ≡ take n (contents b))
unfolding first_frame_data
first_lem b n h = first_of b.chain.done b.chain.cur n h

first_len : (b : LoopBuf) → IsValid b → length (first_frame_data b) ≡ first_frame_len b
unfolding first_frame_data first_frame_len
first_len b v =
    length-window (first_frame b.chain.done b.chain.cur)
      (IsFrame-first b.chain.done b.chain.cur v.chain_ok.done_ok v.chain_ok.cur_ok)

-- The sender keeps what it has to send, taken by the kernel or waiting.
pub record Keeps (s s' : Sender) : Type 0 where
  pub valid : IsValid s'.send_buf
  pub same : s'.wire ++ contents s'.send_buf ≡ s.wire ++ contents s.send_buf
  pub shorter : length (contents s'.send_buf) ≤ length (contents s.send_buf)
  pub event : s'.write_event ≡ s.write_event
  pub closing : s'.safe_close ≡ s.safe_close

Keeps-trans : {s s' s'' : Sender} → Keeps s s' → Keeps s' s'' → Keeps s s''
Keeps-trans h k = record {
  valid = k.valid;
  same = k.same ∙ h.same;
  shorter = omega (arith, h.shorter, k.shorter);
  event = k.event ∙ h.event;
  closing = k.closing ∙ h.closing;
}

-- A handler returns, and keeps what is to be sent.
pub data Delivers (s : Sender) : Option (SendRet × Sender) → Type 0 where
  delivers : (ret : SendRet) (s' : Sender) → Keeps s s' → Delivers s (some (ret, s'))

Delivers-trans :
    {s s' : Sender} {o : Option (SendRet × Sender)} → Keeps s s' → Delivers s' o → Delivers s o
Delivers-trans h (delivers ret s'' k) = delivers ret s'' (Keeps-trans h k)

-- One round's bytes move from the buffer to the kernel.
moved :
    (s : Sender) (b : LoopBuf) (answers : List Answer) (n : ℕ) (bytes : List ℕ)
    → bytes ≡ take n (contents s.send_buf)
    → contents b ≡ drop n (contents s.send_buf)
    → IsValid b
    → Keeps s (record s { send_buf = b; wire = s.wire ++ bytes; answers = answers })
moved s b answers n bytes front back v = record {
  valid = v;
  same =
      append_assoc s.wire bytes (contents b)
      ∙ ap (◌++◌ s.wire) (
          ap (λ (l : List ℕ). l ++ contents b) front
          ∙ ap (◌++◌ (take n (contents s.send_buf))) back
          ∙ take-append-drop n (contents s.send_buf));
  shorter = omega (arith, ap length back, length-drop n (contents s.send_buf));
  event = refl;
  closing = refl;
}

Answers-cases :
    (l : List Answer) → (l ≡ []) ⊎ ((a : Answer) × (rest : List Answer) × (l ≡ a ∷ rest))
Answers-cases [] = inl refl
Answers-cases (a ∷ rest) = inr (a, rest, refl)

-- What a round does with the answer to its call.
module _ (rounds : ℕ) (s : Sender) (total : ℕ) (answers : List Answer) where
  loop-refused :
      send_bytes s.answers (first_frame_data s.send_buf) ≡ some (refused, answers)
      → send_loop (suc rounds) s total ≡ some (refused, record s { answers = answers })
  unfolding send_loop
  loop-refused e = rw (e, send_loop) refl

  module _ (n : ℕ) (bytes : List ℕ) (b : LoopBuf)
      (e : send_bytes s.answers (first_frame_data s.send_buf) ≡ some (sent n, answers))
      (r : read (suc (suc (length s.send_buf.chain.done))) s.send_buf n ≡ some (bytes, b)) where
    abbrev next : Sender
    next = record s {
      send_buf = b;
      wire = s.wire ++ take n (first_frame_data s.send_buf);
      answers = answers;
    }

    loop_stops :
        (ltb n (first_frame_len s.send_buf) || (n == 0)) ≡ true
        → send_loop (suc rounds) s total ≡ some (sent (total + n), next)
    unfolding send_loop
    loop_stops t = rw (e, send_loop) (rw r (rw t refl))

    loop_goes_on :
        (ltb n (first_frame_len s.send_buf) || (n == 0)) ≡ false
        → send_loop (suc rounds) s total ≡ send_loop rounds next (total + n)
    unfolding send_loop
    loop_goes_on t = rw (e, send_loop) (rw r (rw t refl))

-- A round goes on only after it has sent something, so the loop ends within a round, and a call, for
-- each byte that waits.
pub send_loop_lem :
    (rounds : ℕ) (s : Sender) (total : ℕ)
    → IsValid s.send_buf
    → length (contents s.send_buf) < rounds
    → All Calm s.answers
    → length (contents s.send_buf) < length s.answers
    → Delivers s (send_loop rounds s total)
send_loop_lem zero s total v r c k = elim r [ ]
send_loop_lem (suc rounds) s total v r c k = elim (Answers-cases s.answers) [
  | inl e ↦ absurd (omega (arith, ap length e))
  | inr (a, rest, e) ↦
      let calm = subst (All Calm) e c in
      elim (send_bytes-Calm a rest (first_frame_data s.send_buf) calm.0) [
        | inr call ↦
            rw
              (loop-refused rounds s total rest
                (ap (λ l. send_bytes l (first_frame_data s.send_buf)) e ∙ call))
              (delivers refused _ (record {
                valid = v;
                same = refl;
                shorter = omega arith;
                event = refl;
                closing = refl;
              }))
        | inl (n, call, up) ↦
            let called = ap (λ l. send_bytes l (first_frame_data s.send_buf)) e ∙ call in
            let (low, front) = first_lem s.send_buf n up in
            let (b, got, left, w) =
              read_lem (suc (suc (length s.send_buf.chain.done))) s.send_buf n v low
                (omega arith) in
            let kept = moved s b rest n _ front left w in
            elim (Bool-cases (ltb n (first_frame_len s.send_buf) || (n == 0))) [
              | inl t ↦
                  rw (loop_stops rounds s total rest n _ b called got t)
                    (delivers (sent (total + n)) _ kept)
              | inr t ↦
                  let shorter : length (contents b) ≡ length (contents s.send_buf) - n =
                    ap length left ∙ length-drop n (contents s.send_buf) in
                  let some_sent : 0 < n = ground arith in
                  rw (loop_goes_on rounds s total rest n _ b called got t) (
                    Delivers-trans kept (
                      send_loop_lem rounds _ (total + n) w (omega arith) calm.1
                        (omega (arith, ap length e))))
            ]
      ]
]
