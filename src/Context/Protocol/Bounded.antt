-- ===== src/Context/Protocol/Bounded.antt =====
-- How many calls return before receive_result does.
use omnireduce.Base.{ℕ, suc, ◌+◌, ◌*◌, ◌^◌, ◌<◌, ◌≤◌, ◌≡◌, ◌≢◌, refl, arith, inl, inr}
use omnireduce.Context.Protocol.{
  Client, System, Step, send, take, give, finish, Reachable, IsQuiet, busy_count,
}
use omnireduce.Context.Protocol.Calls.{receive_tensor-eq, send_result-eq}
use omnireduce.Context.Protocol.Counting.{busy_count-true, busy_count-false}
use omnireduce.Context.Protocol.Invariant.{idle-waiting, Reachable-IsBalanced}

-- `k` calls that return while the caller goes on waiting.
pub data Waits (message_size n : ℕ) (s : System) : ℕ → System → Type 0 where
  still : Waits message_size n s 0 s
  next :
      (k : ℕ) (s' s'' : System)
      → Waits message_size n s k s'
      → Step message_size n s' s''
      → s''.client ≢ Client.idle
      → Waits message_size n s (suc k) s''

-- A part to take and to hand in, and a result to hand in.
abbrev pub work_left : ℕ → System → ℕ
work_left n s = 2 * s.context.data_ready + busy_count s.busy n

module _ (ms n : ℕ) (n_pos : 0 < n) (n_small : n < 2 ^ 32) where
  Step-work :
      (s s' : System) (rid : ℕ)
      → s.client ≡ Client.waiting rid
      → Step ms n s s'
      → s'.client ≢ Client.idle
      → (s'.client ≡ Client.waiting rid) × (work_left n s' + 1 ≤ work_left n s)
  Step-work s s' rid wait (send tu c rest pos h) waits =
      absurd (idle-waiting s.client rid rest wait)
  Step-work s s' rid wait (take t tu c lt free h) waits =
      let (ready, (threads, ready', results), same) =
        receive_tensor-eq ms t tu s.context c (omega arith) h in
      (wait, omega (arith, busy_count-true s.busy t n lt free))
  Step-work s s' rid wait (give t r c lt held h) waits =
      let (not_all, (threads, ready, results), last) = send_result-eq r s.context c h in
      (wait, omega (arith, busy_count-false s.busy t n lt held))
  Step-work s s' rid wait (finish r c w h) waits = absurd (waits refl)

  Waits-work :
      (s s' : System) (rid k : ℕ)
      → s.client ≡ Client.waiting rid
      → Waits ms n s k s'
      → (s'.client ≡ Client.waiting rid) × (work_left n s' + k ≤ work_left n s)
  Waits-work s s' rid k wait still = (wait, omega arith)
  Waits-work s s' rid k wait (next j s0 s1 run step waits) =
      let (wait0, left0) = Waits-work s s0 rid j wait run in
      let (wait1, left1) = Step-work s0 s1 rid wait0 step waits in (wait1, omega arith)

  -- With 1 to 2^32 - 1 threads, from every state reachable from a quiet one in which the
  -- caller waits, at most two calls for each thread return before the caller no longer waits.
  pub Waits-le :
      (first s s' : System) (rid k : ℕ)
      → IsQuiet n first
      → Reachable ms n first s
      → s.client ≡ Client.waiting rid
      → Waits ms n s k s'
      → k ≤ 2 * n
  Waits-le first s s' rid k quiet reached wait run =
      let b = Reachable-IsBalanced ms n n_pos n_small first s quiet reached in
      let (_, left) = Waits-work s s' rid k wait run in
      elim b.phase [
        | inl r ↦ absurd (idle-waiting s.client rid r.client wait)
        | inr u ↦ omega (arith, u.balance)
      ]
