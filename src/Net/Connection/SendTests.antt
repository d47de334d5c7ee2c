-- ===== src/Net/Connection/SendTests.antt =====
-- A connection that sends a message in two parts, and one that writes what waits.
use gpush.Prelude.{
  ℕ, ◌-◌, ◌%◌, ◌≤◌, ◌≡◌, refl, List, [], ◌∷◌, ◌++◌, some, Bool, true, false, arith, drop, length,
  length-drop,
}
use gpush.Base.LoopBuf.{auto_resize_write}
use gpush.Base.LoopBuf.Frames.{Frame, full, free_size}
use gpush.Base.LoopBuf.Invariant.{contents, room}
use gpush.Net.Connection.Send.{
  Errno, Answer, eintr, eagain, Sender, sent, send_bytes, send_now, send_message, handle_write,
}
use gpush.Net.Connection.Order.{Ordered, Queues, send_message-Queues, handle_write-Queues}
use gpush.Net.Connection.Wire.{begins, takes, Runs-wire}

-- An empty frame of 4 bytes, and a frame with 2 and 3 in it before one with 4.
abbrev blank : Frame
blank = record { buf = 0 ∷ 0 ∷ 0 ∷ 0 ∷ []; cap = 4; size = 0; start = 0 }

abbrev two_used : Frame
two_used = record { buf = 1 ∷ 2 ∷ 3 ∷ 0 ∷ []; cap = 4; size = 2; start = 1 }

abbrev one_used : Frame
one_used = record { buf = 4 ∷ 0 ∷ 0 ∷ 0 ∷ []; cap = 4; size = 1; start = 0 }

eagain-ne-eintr : ◌≡◌ {A = Errno} eagain eintr → ⊥
eagain-ne-eintr e = cc

true-off : ◌≡◌ {A = Bool} true false → ⊥
true-off e = cc

-- The kernel takes up to 2 bytes of a call, and has no room after it.
abbrev takes_two : Answer
takes_two = record { taken = 2; errno = eagain }

abbrev idle_sender : Sender
idle_sender = record {
  send_buf = record { chain = record { done = []; cur = blank; spare = [] }; size = 0 };
  wire = [];
  answers = takes_two ∷ [];
  write_event = false;
  safe_close = false;
}

idle_sender-Ordered : Ordered idle_sender
idle_sender-Ordered = record {
  valid = record {
    chain_ok = record { done_ok = tt; cur_ok = omega arith; spare_ok = tt };
    counted = refl;
  };
  idle = λ off. refl;
}

abbrev message : List ℕ
message = 7 ∷ 8 ∷ 9 ∷ []

message_fits : (k : ℕ) → (length (drop k message) - room blank []) % 2048 ≤ 2016
unfolding room full free_size
message_fits k = omega (arith, length-drop k message)

send_idle : Queues idle_sender message (send_message message idle_sender)
send_idle =
    send_message-Queues idle_sender message takes_two [] idle_sender-Ordered refl eagain-ne-eintr
      message_fits

-- The third byte waits.
abbrev cut_sender : Sender
cut_sender = record idle_sender {
  send_buf = (auto_resize_write idle_sender.send_buf (9 ∷ [])).1;
  wire = 7 ∷ 8 ∷ [];
  answers = [];
  write_event = true;
}

send_message-cut : send_message message idle_sender ≡ some (sent 2, cut_sender)
unfolding send_message send_now send_bytes
send_message-cut = refl

Runs-wire_example :
    Ordered cut_sender × (cut_sender.wire ++ contents cut_sender.send_buf ≡ 7 ∷ 8 ∷ 9 ∷ [])
Runs-wire_example =
    Runs-wire idle_sender cut_sender message idle_sender-Ordered refl
      (takes message 2 takes_two [] begins refl eagain-ne-eintr message_fits send_message-cut)

abbrev waiting_sender : Sender
waiting_sender = record idle_sender {
  send_buf = record {
    chain = record { done = two_used ∷ []; cur = one_used; spare = [] };
    size = 3;
  };
  answers = takes_two ∷ takes_two ∷ takes_two ∷ takes_two ∷ [];
  write_event = true;
}

waiting_sender-Ordered : Ordered waiting_sender
waiting_sender-Ordered = record {
  valid = record {
    chain_ok = record { done_ok = omega arith; cur_ok = omega arith; spare_ok = tt };
    counted = refl;
  };
  idle = λ off. absurd (true-off off);
}

handle_write-Queues_example : Queues waiting_sender [] (handle_write 4 waiting_sender)
handle_write-Queues_example =
    handle_write-Queues 4 waiting_sender waiting_sender-Ordered (omega arith)
      (eagain-ne-eintr, (eagain-ne-eintr, (eagain-ne-eintr, (eagain-ne-eintr, tt)))) (omega arith)
