-- ===== src/Setup/Threads.antt =====
-- Where nothing fails: the last synchronisation, and the threads.
use omnireduce.Base.{
  ℕ, zero, suc, ◌+◌, ◌≡◌, refl, Bool, List, [], ◌∷◌, ◌++◌, ℤ, pos, ◌==◌, if◌then◌else◌, true, false,
  sub32,
}
use omnireduce.Outcome.{Outcome, ok}
use omnireduce.Params.{Params}
use omnireduce.QueuePairs.Calls.{Agreed}
use omnireduce.Setup.{
  System, ThreadCall, start, run, core_of, sync_all, start_threads, join_threads, threads,
}

-- No call fails.
pub record Willing (sys : System) : Type 0 where
  pub gid : sys.query_gid ≡ pos 0
  pub agreed : Agreed sys.modify_qp
  pub ready : (i : ℕ) → sys.sync_ready i ≡ pos 0
  pub created : (i : ℕ) → sys.thread_create i ≡ pos 0

-- Thread `i + 1` on its core.
abbrev pub started : (ℕ → ℤ) → Bool → (i n : ℕ) → List ThreadCall
started cores direct i zero = []
started cores direct i (suc n) =
    start direct (core_of (cores (i + 1))) ∷ started cores direct (i + 1) n

-- All that a process does with its threads.
abbrev pub thread_calls_of : Params → (ℕ → ℤ) → List ThreadCall
thread_calls_of p cores =
    let direct = if p.direct_memory == 0 then false else true in
    started cores direct 0 (sub32 p.num_worker_threads 1)
    ++ run direct ∷ join_threads 0 (sub32 p.num_worker_threads 1)

pub sync_all-ready {ℓ} :
    {A : Type ℓ} (synced : ℕ → ℤ) (i n : ℕ) (next : Outcome A)
    → ((k : ℕ) → synced k ≡ pos 0)
    → sync_all synced i n next ≡ next
unfolding sync_all
sync_all-ready synced i zero next ready = refl
sync_all-ready synced i (suc n) next ready =
    rw (ready i) (sync_all-ready synced (i + 1) n next ready)

start_threads-started :
    (created cores : ℕ → ℤ) (direct : Bool) (i n : ℕ)
    → ((k : ℕ) → created k ≡ pos 0)
    → start_threads created cores direct i n ≡ ok (started cores direct i n)
unfolding start_threads
start_threads-started created cores direct i zero made = refl
start_threads-started created cores direct i (suc n) made =
    rw (made i, start_threads-started created cores direct (i + 1) n made) refl

pub threads-thread_calls_of :
    (sys : System) (p : Params) (cores : ℕ → ℤ)
    → Willing sys
    → threads sys p cores ≡ ok (thread_calls_of p cores)
unfolding threads
threads-thread_calls_of sys p cores willing =
    rw
      (start_threads-started sys.thread_create cores (if p.direct_memory == 0 then false else true)
        0 (sub32 p.num_worker_threads 1) willing.created)
      refl
