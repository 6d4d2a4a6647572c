-- ===== src/Setup.antt =====
-- master and aggmaster of omnireduce/omnireduce.cpp, from the accepted connections to the threads. What
-- sockets, verbs and threads answer is an argument; the calls that are made are the result.
pub mod Accept
pub mod Threads
pub mod Cluster
pub mod Servers
pub mod Paired
use Prim.Native.String.{String, compare}
use text.Mathlib.Text.{is_eq}
use omnireduce.Base.{
  ℕ, zero, suc, ◌+◌, ◌*◌, Bool, true, false, not, ◌&&◌, List, [], ◌∷◌, ◌++◌, Option, some, none, ℤ,
  pos, negsuc, ◌==◌, if◌then◌else◌, update, sub32,
}
use omnireduce.Outcome.{Failure, Outcome, ok, failed, ◌>>=◌}
use omnireduce.Params.{Params}
use omnireduce.ConData.{
  ByteOrder, ConData, RemoteData, Host, remote_data, exchange, is_zero, is_negative,
  master_con_data, aggmaster_con_data,
}
use omnireduce.QueuePairs.{QpCall, master_connect, aggmaster_connect, connect_addresses}

-- Step 3, by the results of sock_sync_data, then what follows it.
unfoldable pub sync_all {ℓ} : {A : Type ℓ} → (ℕ → ℤ) → (i n : ℕ) → Outcome A → Outcome A
sync_all synced i zero next = next
sync_all synced i (suc n) next =
    let rest = sync_all synced (i + 1) n next in
    if is_zero (synced i) then rest else failed Failure.sync_failed

-- A thread for the tensors, on a core or on any (`none`); the caller's own work; and pthread_join.
pub data ThreadCall : Type 0 where
  start : (direct : Bool) → (core : Option ℕ) → ThreadCall
  run : (direct : Bool) → ThreadCall
  join : ℕ → ThreadCall

-- A negative core is none.
unfoldable pub core_of : ℤ → Option ℕ
core_of (pos core) = some core
core_of (negsuc n) = none

-- Slave threads `i` to `i + n - 1`; `created` is what pthread_create returns.
unfoldable pub start_threads :
    (created : ℕ → ℤ) (cores : ℕ → ℤ) (direct : Bool) (i n : ℕ) → Outcome (List ThreadCall)
unfolding core_of
start_threads created cores direct i zero = ok []
start_threads created cores direct i (suc n) =
    let rest = start_threads created cores direct (i + 1) n in
    if is_zero (created i)
    then (do later ← rest; ok (ThreadCall.start direct (core_of (cores (i + 1))) ∷ later))
    else failed Failure.thread_failed

unfoldable pub join_threads : (i n : ℕ) → List ThreadCall
join_threads i zero = []
join_threads i (suc n) = ThreadCall.join i ∷ join_threads (i + 1) n

-- What the system answers.
pub record System : Type 0 where
  pub query_gid : ℤ
  pub sync_data : ℕ → ℤ × ConData
  pub modify_qp : QpCall → ℤ
  pub sync_ready : ℕ → ℤ
  pub thread_create : ℕ → ℤ

-- What a process knows and has done once its threads run.
pub record Running : Type 0 where
  pub id : ℕ
  pub remote_props : ℕ → RemoteData
  pub qp_num_to_peerid : ℕ → Option ℕ
  pub qp_calls : List QpCall
  pub thread_calls : List ThreadCall

unfoldable pub threads : System → Params → (cores : ℕ → ℤ) → Outcome (List ThreadCall)
unfolding start_threads join_threads
threads sys p cores = do
  let n = sub32 p.num_worker_threads 1
  let direct = if p.direct_memory == 0 then false else true
  started ← start_threads sys.thread_create cores direct 0 n
  ok (started ++ ThreadCall.run direct ∷ join_threads 0 n)

-- A worker. `before` is what workerId, the numbers of remote queue pairs and the table held.
unfoldable pub master : System → ByteOrder → Params → Host → (before : Running) → Outcome Running
unfolding remote_data exchange master_connect connect_addresses sync_all threads
master sys o p h before =
    let n = p.num_workers * p.num_qps_per_aggregator_per_thread * p.num_worker_threads in
    let total = p.num_qps_per_aggregator_per_thread * p.num_aggregators * p.num_worker_threads in
    let take : ℕ → ConData → RemoteData = λ i d. remote_data o n d (before.remote_props i).qp_num in
    let steps = (do
      (id, props) ←
          exchange sys.sync_data p.num_workers take 0 p.num_aggregators before.id
            before.remote_props
      (peers, calls) ← master_connect sys.modify_qp p h id props 0 total before.qp_num_to_peerid
      addresses ← connect_addresses sys.modify_qp p props 0 p.num_aggregators
      run_calls ← sync_all sys.sync_ready 0 p.num_aggregators (threads sys p p.worker_cores)
      ok (record {
        id = id;
        remote_props = props;
        qp_num_to_peerid = peers;
        qp_calls = calls ++ addresses;
        thread_calls = run_calls;
      })) in
    if not (is_negative p.gid_idx) && not (is_zero sys.query_gid)
    then failed Failure.gid_failed
    else steps

-- An aggregator.
unfoldable pub aggmaster : System → ByteOrder → Params → Host → (before : Running) → Outcome Running
unfolding remote_data exchange aggmaster_connect connect_addresses sync_all threads
aggmaster sys o p h before =
    let n = p.num_aggregators * p.num_qps_per_aggregator_per_thread * p.num_worker_threads in
    let total = p.num_qps_per_aggregator_per_thread * p.num_workers * p.num_worker_threads in
    let take : ℕ → ConData → RemoteData = λ i d. remote_data o n d (before.remote_props i).qp_num in
    let steps = (do
      (id, props) ←
          exchange sys.sync_data p.num_aggregators take 0 p.num_workers before.id
            before.remote_props
      (peers, calls) ← aggmaster_connect sys.modify_qp p h id props 0 total before.qp_num_to_peerid
      addresses ← connect_addresses sys.modify_qp p props 0 p.num_workers
      run_calls ← sync_all sys.sync_ready 0 p.num_workers (threads sys p p.aggregator_cores)
      ok (record {
        id = id;
        remote_props = props;
        qp_num_to_peerid = peers;
        qp_calls = calls ++ addresses;
        thread_calls = run_calls;
      })) in
    if not (is_negative p.gid_idx) && not (is_zero sys.query_gid)
    then failed Failure.gid_failed
    else steps

-- socks after the connections that were accepted, each with the address of its peer: strcmp with every
-- address of the configuration.
unfoldable pub place : Params → String → (sock : ℕ) → (i n : ℕ) → (ℕ → ℕ) → ℕ → ℕ
place p from sock i zero socks = socks
place p from sock i (suc n) socks =
    place p from sock (i + 1) n
      (if is_eq (compare (p.worker_ipaddr i) from) then update socks i sock else socks)

unfoldable pub accept_all : Params → List (String × ℕ) → (ℕ → ℕ) → ℕ → ℕ
unfolding place
accept_all p [] socks = socks
accept_all p ((from, sock) ∷ rest) socks =
    accept_all p rest (place p from sock 0 p.num_workers socks)
