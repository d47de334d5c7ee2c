-- ===== src/Connect/Client/Posted.antt =====
-- connect_server/src/client_conn.cpp: what becomes of an operator that a push posted to the event loop
-- of its client.
use gpush.Prelude.{ℕ, List, [], ◌∷◌, ◌++◌, none, some}
use gpush.Prelude.Int32.{minus}
use gpush.Proto.{magic_number, construct_packet}
use gpush.Net.EventLoop.{ConnectionMap, get_connection}
use gpush.Connect.Client.{CliCon, SendMsgOp}

-- The connections of an event loop, and the packets given to their `sendMessage`.
pub record ClientLoop : Type 0 where
  pub cons : ConnectionMap CliCon
  pub written : List (ℕ × List ℕ)

-- `SendMsgOp::process`, with the result of `sendMessage` on a connection.
unfoldable pub process_send : (ℕ → List ℕ → ℕ) → SendMsgOp → ClientLoop → ClientLoop × ℕ
process_send send op l = elim (get_connection op.conid l.cons) [
  | none ↦ (l, minus 1)
  | some con ↦
      let msg = construct_packet (record { magic = magic_number; len = 0; cmd = op.cmd }) op.body in
      (record l { written = l.written ++ ((op.conid, msg) ∷ []) }, send op.conid msg)
]
