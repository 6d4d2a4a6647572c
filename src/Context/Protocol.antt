-- ===== src/Context/Protocol.antt =====
-- A caller of AllReduce and the worker threads of omnireduce/worker.cpp, which meet at the methods of
-- OmniContext; every call that returns is one step. AllReduce of omnireduce/context.cpp is send_tensor
-- followed by receive_result; a thread is busy from receive_tensor to send_result.
mod Counting
mod Calls
pub mod Invariant
pub mod Progress
pub mod Bounded
use omnireduce.Base.{
  ℕ, zero, suc, ◌+◌, ◌<◌, ◌≡◌, Bool, true, false, Option, some, if◌then◌else◌, update,
}
use omnireduce.Common.{TensorUpdate}
use omnireduce.Context.{Context, send_tensor, receive_tensor, send_result, receive_result}

-- `waiting id`: between send_tensor and receive_result(id).
pub data Client : Type 0 where
  idle : Client
  waiting : ℕ → Client

pub record System : Type 0 where
  pub context : Context
  pub busy : ℕ → Bool
  pub client : Client

-- One call that returns; `n` threads, and messages of `message_size`.
pub data Step (message_size n : ℕ) (s : System) : System → Type 0 where
  send :
      (tu : TensorUpdate) (c : Context)
      → s.client ≡ Client.idle
      → 0 < tu.id
      → send_tensor tu s.context ≡ some c
      → Step message_size n s (record s { context = c; client = Client.waiting tu.id })
  take :
      (t : ℕ) (tu : TensorUpdate) (c : Context)
      → t < n
      → s.busy t ≡ false
      → receive_tensor message_size t s.context ≡ (c, some tu)
      → Step message_size n s (record s { context = c; busy = update s.busy t true })
  give :
      (t rid : ℕ) (c : Context)
      → t < n
      → s.busy t ≡ true
      → send_result rid s.context ≡ (c, true)
      → Step message_size n s (record s { context = c; busy = update s.busy t false })
  finish :
      (rid : ℕ) (c : Context)
      → s.client ≡ Client.waiting rid
      → receive_result rid s.context ≡ some c
      → Step message_size n s (record s { context = c; client = Client.idle })

pub data Reachable (message_size n : ℕ) (first : System) : System → Type 0 where
  here : Reachable message_size n first first
  after :
      (s s' : System)
      → Reachable message_size n first s
      → Step message_size n s s'
      → Reachable message_size n first s'

-- Before the first AllReduce.
abbrev pub IsQuiet : ℕ → System → Type 0
IsQuiet n s =
    (s.context.num_worker_threads ≡ n)
    × (s.context.data_ready ≡ 0)
    × (s.context.results ≡ 0)
    × (s.context.result_id ≡ 0)
    × ((t : ℕ) → s.busy t ≡ false)
    × (s.client ≡ Client.idle)

-- The busy threads among threads 0 to `n - 1`.
abbrev pub busy_count : (ℕ → Bool) → ℕ → ℕ
busy_count busy zero = 0
busy_count busy (suc n) = let rest = busy_count busy n in if busy n then rest + 1 else rest
