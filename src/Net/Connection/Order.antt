-- ===== src/Net/Connection/Order.antt =====
-- Messages reach the kernel in the order in which they were given to `sendMessage`.
use gpush.Prelude.{
  ℕ, ◌%◌, ◌<◌, ◌≤◌, ◌≡◌, refl, ap, sym, ◌∙◌, inl, inr, List, [], ◌∷◌, ◌++◌, append_assoc,
  append-nil, Option, some, Bool, true, false, arith, length, take, drop, take-append-drop,
  take_all, All, Bool-cases, if◌then◌else◌, ◌==◌, leb, leb→le, length-eq_zero,
}
use mathlib.Core.Path.{subst}
use gpush.Base.LoopBuf.{LoopBuf, auto_resize_write, first_frame_len}
use gpush.Base.LoopBuf.Invariant.{contents, IsValid}
use gpush.Base.LoopBuf.Resize.{overflow, auto_resize_write_lem}
use gpush.Net.Connection.Send.{
  Answer, SendRet, sent, refused, Sender, send_bytes, send_now, send_message, do_send, after_send,
  handle_write,
}
use gpush.Net.Connection.Sent.{Calm, send_bytes-Calm, Keeps, Delivers, delivers, send_loop_lem}

-- Bytes wait only while the connection is told when its socket can be written.
pub record Ordered (s : Sender) : Type 0 where
  pub valid : IsValid s.send_buf
  pub idle : s.write_event ≡ false → contents s.send_buf ≡ []

-- What was to be sent is followed by a message.
pub record Queue (s s' : Sender) (msg : List ℕ) : Type 0 where
  pub ordered : Ordered s'
  pub follows : s'.wire ++ contents s'.send_buf ≡ (s.wire ++ contents s.send_buf) ++ msg

-- A handler that returns has queued the message; one that fails has queued nothing.
pub data Queues (s : Sender) (msg : List ℕ) : Option (SendRet × Sender) → Type 0 where
  queued : (n : ℕ) (s' : Sender) → Queue s s' msg → Queues s msg (some (sent n, s'))
  failed : (s' : Sender) → Queue s s' [] → Queues s msg (some (refused, s'))

module _ (b : Bool) (x y : Option (SendRet × Sender)) where
  if_true : b ≡ true → (if b then x else y) ≡ x
  if_true e = rw e refl

  if_false : b ≡ false → (if b then x else y) ≡ y
  if_false e = rw e refl

true-ne-false : ◌≡◌ {A = Bool} true false → ⊥
true-ne-false e = cc

do_send-Delivers :
    (rounds : ℕ) (s : Sender)
    → IsValid s.send_buf
    → length (contents s.send_buf) < rounds
    → All Calm s.answers
    → length (contents s.send_buf) < length s.answers
    → Delivers s (do_send rounds s)
unfolding do_send
do_send-Delivers rounds s v r c k = elim (Bool-cases (first_frame_len s.send_buf == 0)) [
  | inl e ↦ rw e (
      delivers (sent 0) s
        (record { valid = v; same = refl; shorter = omega arith; event = refl; closing = refl }))
  | inr e ↦ rw e (send_loop_lem rounds s 0 v r c k)
]

-- An empty buffer's bytes.
size-contents : (b : LoopBuf) → IsValid b → (b.size == 0) ≡ true → contents b ≡ []
size-contents b v e = length-eq_zero (contents b) (ground (arith, v.counted))

Keeps-Queue : (s s' : Sender) → Ordered s → Keeps s s' → Queue s s' []
Keeps-Queue s s' o k = record {
  ordered = record {
    valid = k.valid;
    idle = λ off.
        length-eq_zero (contents s'.send_buf)
          (omega (arith, k.shorter, ap length (o.idle (sym k.event ∙ off))));
  };
  follows = k.same ∙ sym (append-nil _);
}

module _ (n : ℕ) (s : Sender) (empty : (s.send_buf.size == 0) ≡ true) where
  after-closing : s.safe_close ≡ true → after_send (some (sent n, s)) ≡ some (refused, s)
  unfolding after_send
  after-closing c = rw empty (rw c refl)

  after_drained :
      s.safe_close ≡ false
      → after_send (some (sent n, s)) ≡ some (sent n, record s { write_event = false })
  unfolding after_send
  after_drained c = rw empty (rw c refl)

after_send-Queues :
    (s : Sender) (o : Option (SendRet × Sender))
    → Ordered s
    → Delivers s o
    → Queues s [] (after_send o)
unfolding after_send
after_send-Queues s _ o (delivers refused s' k) = failed s' (Keeps-Queue s s' o k)
after_send-Queues s _ o (delivers (sent n) s' k) =
    let q = Keeps-Queue s s' o k in
    elim (Bool-cases (s'.send_buf.size == 0)) [
      | inr e ↦ rw e (queued n s' q)
      | inl e ↦ elim (Bool-cases s'.safe_close) [
        | inl c ↦ rw (after-closing n s' e c) (failed s' q)
        | inr c ↦ rw (after_drained n s' e c) (
            queued n (record s' { write_event = false })
              (record {
                ordered = record {
                  valid = k.valid;
                  idle = λ off. size-contents s'.send_buf k.valid e;
                };
                follows = q.follows;
              }))
      ]
    ]

-- `handleWrite` returns when the kernel answers a call for each byte that waits, and one more, and no
-- answer is EINTR; and it neither loses nor reorders a byte.
pub handle_write-Queues :
    (rounds : ℕ) (s : Sender)
    → Ordered s
    → length (contents s.send_buf) < rounds
    → All Calm s.answers
    → length (contents s.send_buf) < length s.answers
    → Queues s [] (handle_write rounds s)
unfolding handle_write
handle_write-Queues rounds s o r c k =
    after_send-Queues s (do_send rounds s) o (do_send-Delivers rounds s o.valid r c k)

-- What waits is followed by what is put behind it.
waiting_behind :
    (s : Sender) (msg : List ℕ)
    → Ordered s
    → s.write_event ≡ true
    → overflow s.send_buf msg % 2048 ≤ 2016
    → Queue s (record s { send_buf = (auto_resize_write s.send_buf msg).1 }) msg
waiting_behind s msg o e fits =
    let w = auto_resize_write_lem s.send_buf msg o.valid fits in
    record {
      ordered = record { valid = w.2; idle = λ off. absurd (true-ne-false (sym e ∙ off)) };
      follows = ap (◌++◌ s.wire) w.1 ∙ sym (append_assoc s.wire (contents s.send_buf) msg);
    }

-- What the kernel did not take of a message waits for it, where nothing waited before.
rest_waits :
    (s : Sender) (answers : List Answer) (n : ℕ) (msg : List ℕ)
    → Ordered s
    → contents s.send_buf ≡ []
    → overflow s.send_buf (drop n msg) % 2048 ≤ 2016
    → Queue s
        (record s {
          send_buf = (auto_resize_write s.send_buf (drop n msg)).1;
          wire = s.wire ++ take n msg;
          answers = answers;
          write_event = true;
        })
        msg
rest_waits s answers n msg o none_waits fits =
    let w = auto_resize_write_lem s.send_buf (drop n msg) o.valid fits in
    record {
      ordered = record { valid = w.2; idle = λ off. absurd (true-ne-false off) };
      follows =
          append_assoc s.wire (take n msg) _
          ∙ ap (λ l. s.wire ++ (take n msg ++ l)) (w.1 ∙ ap (λ l. l ++ drop n msg) none_waits)
          ∙ ap (◌++◌ s.wire) (take-append-drop n msg)
          ∙ ap (λ l. l ++ msg) (sym (append-nil s.wire) ∙ ap (◌++◌ s.wire) (sym none_waits));
    }

all_taken :
    (s : Sender) (answers : List Answer) (n : ℕ) (msg : List ℕ)
    → Ordered s
    → contents s.send_buf ≡ []
    → length msg ≤ n
    → Queue s (record s { wire = s.wire ++ take n msg; answers = answers }) msg
all_taken s answers n msg o none_waits all = record {
  ordered = record { valid = o.valid; idle = o.idle };
  follows =
      ap (λ l. (s.wire ++ take n msg) ++ l) none_waits
      ∙ append-nil (s.wire ++ take n msg)
      ∙ ap (◌++◌ s.wire) (take_all n msg all)
      ∙ ap (λ l. l ++ msg) (sym (append-nil s.wire) ∙ ap (◌++◌ s.wire) (sym none_waits));
}

module _ (s : Sender) (msg : List ℕ) (answers : List Answer) where
  now-refused :
      send_bytes s.answers msg ≡ some (refused, answers)
      → send_now msg s ≡ some (refused, record s { answers = answers })
  unfolding send_now
  now-refused e = rw (e, send_now) refl

  now-sent :
      (n : ℕ)
      → send_bytes s.answers msg ≡ some (sent n, answers)
      → leb (length msg) n ≡ true
      → send_now msg s ≡ some (sent n, record s { wire = s.wire ++ take n msg; answers = answers })
  unfolding send_now
  now-sent n e all = rw (e, send_now) (rw all refl)

  now_cut :
      (n : ℕ)
      → send_bytes s.answers msg ≡ some (sent n, answers)
      → leb (length msg) n ≡ false
      → send_now msg s
        ≡ some (
          sent n,
          record s {
            send_buf = (auto_resize_write s.send_buf (drop n msg)).1;
            wire = s.wire ++ take n msg;
            answers = answers;
            write_event = true;
          },
        )
  unfolding send_now
  now_cut n e all = rw (e, send_now) (rw all refl)

send_none_waits :
    (s : Sender) (msg : List ℕ) (a : Answer) (answers : List Answer)
    → Ordered s
    → s.write_event ≡ false
    → s.answers ≡ a ∷ answers
    → Calm a
    → ((n : ℕ) → overflow s.send_buf (drop n msg) % 2048 ≤ 2016)
    → Queues s msg (send_now msg s)
send_none_waits s msg a answers o off e calm fits =
    let none_waits = o.idle off in
    let asks = ap (λ l. send_bytes l msg) e in
    elim (send_bytes-Calm a answers msg calm) [
      | inr call ↦ rw (now-refused s msg answers (asks ∙ call)) (
          failed (record s { answers = answers })
            (record {
              ordered = record { valid = o.valid; idle = o.idle };
              follows = sym (append-nil _);
            }))
      | inl (n, call, up) ↦ elim (Bool-cases (leb (length msg) n)) [
        | inl all ↦
            rw (now-sent s msg answers n (asks ∙ call) all)
              (queued n _ (all_taken s answers n msg o none_waits (leb→le _ _ all)))
        | inr all ↦
            rw (now_cut s msg answers n (asks ∙ call) all)
              (queued n _ (rest_waits s answers n msg o none_waits (fits n)))
      ]
    ]

-- `sendMessage` returns when the kernel answers its call, and puts the message behind all that was to
-- be sent before, or fails and queues nothing.
pub send_message-Queues :
    (s : Sender) (msg : List ℕ) (a : Answer) (answers : List Answer)
    → Ordered s
    → s.answers ≡ a ∷ answers
    → Calm a
    → ((n : ℕ) → overflow s.send_buf (drop n msg) % 2048 ≤ 2016)
    → Queues s msg (send_message msg s)
unfolding send_message
send_message-Queues s msg a answers o e calm fits = elim (Bool-cases s.write_event) [
  | inr off ↦
      subst (Queues s msg) (sym (if_false s.write_event _ _ off))
        (send_none_waits s msg a answers o off e calm fits)
  | inl on ↦
      subst (Queues s msg) (sym (if_true s.write_event _ _ on))
        (queued 0 _ (waiting_behind s msg o on (fits 0)))
]
