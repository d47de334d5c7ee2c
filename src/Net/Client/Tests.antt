-- ===== src/Net/Client/Tests.antt =====
-- A client that loses its connection.
use gpush.Prelude.{ℕ, refl, [], true, false}
use gpush.Net.Client.{connected, read_event, Client, Hooks, failed, step}
use gpush.Net.Client.States.{Settled, StaysSettled, step-Settled}

abbrev hooks : Hooks ℕ
hooks = record {
  on_connected = λ n. (n, 0);
  on_disconnected = λ n. n;
  keep_alive = λ n. (n, 0);
  clear_bufs = λ n. 0;
  read = λ n. (n, false, 0);
  write = λ n. (n, false, 0);
}

abbrev online : Client ℕ
online = record {
  status = connected;
  fd = true;
  noti = read_event;
  addr = ([], 80);
  reconnect_span = 5000;
  keep_alive_span = 0;
  started = [];
  part = 9;
}

online-Settled : Settled online
unfolding Settled
online-Settled = refl

step-Settled_example : StaysSettled (step hooks failed online)
step-Settled_example = step-Settled hooks failed online online-Settled
