-- ===== src/Net/EventLoop/Wake.antt =====
-- How other threads wake an event loop: `addAsynOperator` against `processOps` and the wait in `run`,
-- one access to the shared state at a time. Wake-ups by sockets and timers are steps of their own.
use gpush.Prelude.{ℕ, suc, ◌+◌, ◌-◌, ◌*◌, ◌≡◌, List, [], ◌∷◌, ◌++◌, Bool, true, false}

-- Where the loop stands: before the flag is cleared, before `recv`, in the loop that takes operators
-- off, and in `epoll_wait`.
pub data LoopAt : Type 0 where
  clearing receiving draining polling : LoopAt

-- `flag` is `m_ops_flag`, `bytes` what is in the control socket. Of the threads in
-- `addAsynOperator`, `queued` have put their operator into `m_ops`, and `winners` have then set the
-- flag. All operators were `posted` in this order; those in `queue` wait, those in `done` ran.
pub record Wake : Type 0 where
  pub at : LoopAt
  pub flag : Bool
  pub bytes : ℕ
  pub queue : List ℕ
  pub done : List ℕ
  pub posted : List ℕ
  pub queued : ℕ
  pub winners : ℕ

abbrev pub quiet : Wake
quiet = record {
  at = clearing;
  flag = false;
  bytes = 0;
  queue = [];
  done = [];
  posted = [];
  queued = 0;
  winners = 0;
}

-- A step of a thread in `addAsynOperator`: it queues its operator, sets the flag if it is clear, and
-- sends a byte if it was the one to set it.
pub data Post (w : Wake) : Wake → Type 0 where
  push :
      (op : ℕ)
      → Post w (record w {
        queue = w.queue ++ (op ∷ []);
        posted = w.posted ++ (op ∷ []);
        queued = w.queued + 1;
      })
  win :
      (n : ℕ)
      → w.queued ≡ suc n
      → w.flag ≡ false
      → Post w (record w { flag = true; queued = n; winners = w.winners + 1 })
  lose : (n : ℕ) → w.queued ≡ suc n → w.flag ≡ true → Post w (record w { queued = n })
  notify : (n : ℕ) → w.winners ≡ suc n → Post w (record w { bytes = w.bytes + 1; winners = n })

-- A step of the loop. `recv` takes up to 16 KB.
pub data Turn (w : Wake) : Wake → Type 0 where
  clear : w.at ≡ clearing → Turn w (record w { at = receiving; flag = false })
  receive : w.at ≡ receiving → Turn w (record w { at = draining; bytes = w.bytes - 16 * 1024 })
  run_op :
      (op : ℕ) (ops : List ℕ)
      → w.at ≡ draining
      → w.queue ≡ op ∷ ops
      → Turn w (record w { queue = ops; done = w.done ++ (op ∷ []) })
  sleep : w.at ≡ draining → w.queue ≡ [] → Turn w (record w { at = polling })
  woken : (n : ℕ) → w.at ≡ polling → w.bytes ≡ suc n → Turn w (record w { at = clearing })

pub data Step (w v : Wake) : Type 0 where
  post : Post w v → Step w v
  turn : Turn w v → Step w v

-- What steps lead to, and what they lead to when a socket or a timer may wake the loop too.
pub data Steps (w : Wake) : Wake → Type 0 where
  here : Steps w w
  then_step : (u v : Wake) → Steps w u → Step u v → Steps w v

pub data Reach (w : Wake) : Wake → Type 0 where
  begun : Reach w w
  stepped : (u v : Wake) → Reach w u → Step u v → Reach w v
  other_event : (u : Wake) → Reach w u → u.at ≡ polling → Reach w (record u { at = clearing })
