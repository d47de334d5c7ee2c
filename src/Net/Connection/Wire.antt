-- ===== src/Net/Connection/Wire.antt =====
-- A connection's stream of bytes over its whole life.
use gpush.Prelude.{
  ℕ, ◌%◌, ◌<◌, ◌≤◌, ◌≡◌, ap, ◌∙◌, List, [], ◌∷◌, ◌++◌, append-nil, Option, none, some, length, drop,
  All,
}
use mathlib.Core.Path.{subst}
use gpush.Base.LoopBuf.Invariant.{contents}
use gpush.Base.LoopBuf.Resize.{overflow}
use gpush.Net.Connection.Send.{Answer, SendRet, sent, refused, Sender, send_message, handle_write}
use gpush.Net.Connection.Sent.{Calm}
use gpush.Net.Connection.Order.{
  Ordered, Queue, Queues, queued, failed, send_message-Queues, handle_write-Queues,
}

-- What happened to a sender, with the messages that `sendMessage` took, one behind the other.
pub data Runs (s : Sender) : Sender → List ℕ → Type 0 where
  begins : Runs s s []
  answered :
      {s' : Sender} {stream : List ℕ} (answers : List Answer)
      → Runs s s' stream
      → Runs s (record s' { answers = answers }) stream
  takes :
      {s' s'' : Sender} {stream : List ℕ} (msg : List ℕ) (n : ℕ) (a : Answer)
      (answers : List Answer)
      → Runs s s' stream
      → s'.answers ≡ a ∷ answers
      → Calm a
      → ((k : ℕ) → overflow s'.send_buf (drop k msg) % 2048 ≤ 2016)
      → send_message msg s' ≡ some (sent n, s'')
      → Runs s s'' (stream ++ msg)
  writes :
      {s' s'' : Sender} {stream : List ℕ} (rounds n : ℕ)
      → Runs s s' stream
      → length (contents s'.send_buf) < rounds
      → All Calm s'.answers
      → length (contents s'.send_buf) < length s'.answers
      → handle_write rounds s' ≡ some (sent n, s'')
      → Runs s s'' stream

abbrev Took : Sender → List ℕ → Option (SendRet × Sender) → Type 0
Took s msg (some (sent n, s')) = Queue s s' msg
Took s msg (some (refused, s')) = Unit
Took s msg none = Unit

Queues-Took :
    {s : Sender} {msg : List ℕ} {o : Option (SendRet × Sender)} → Queues s msg o → Took s msg o
Queues-Took (queued n s' q) = q
Queues-Took (failed s' q) = tt

-- On a connection that starts with no bytes, after any calls as `Runs` has them: `sendMessage`, where
-- the kernel's answer is not EINTR and autoResizeWrite does not lose the end of what the kernel leaves,
-- wherever it cuts the message; and `handleWrite`, where no answer is EINTR and there are more of them
-- than bytes that wait. Then the bytes that the kernel took and those that wait are, in this order, the
-- messages that `sendMessage` took, one behind the other.
pub Runs-wire :
    (s s' : Sender) (stream : List ℕ)
    → Ordered s
    → s.wire ++ contents s.send_buf ≡ []
    → Runs s s' stream
    → Ordered s' × (s'.wire ++ contents s'.send_buf ≡ stream)
Runs-wire s s' stream o e begins = (o, e)
Runs-wire s _ stream o e (answered answers r) =
    let (o', e') = Runs-wire s _ stream o e r in (record { valid = o'.valid; idle = o'.idle }, e')
Runs-wire s s' _ o e (takes {s' = t} {stream = stream} msg n a answers r head calm fits ret) =
    let (o', e') = Runs-wire s t stream o e r in
    let q : Queue t s' msg =
      subst (Took t msg) ret
        (Queues-Took (send_message-Queues t msg a answers o' head calm fits)) in
    (q.ordered, q.follows ∙ ap (λ l. l ++ msg) e')
Runs-wire s s' stream o e (writes {s' = t} rounds n r enough calm calls ret) =
    let (o', e') = Runs-wire s t stream o e r in
    let q : Queue t s' [] =
      subst (Took t []) ret (Queues-Took (handle_write-Queues rounds t o' enough calm calls)) in
    (q.ordered, q.follows ∙ append-nil _ ∙ e')
