-- ===== src/Setup/Paired.antt =====
-- A worker and an aggregator that have exchanged their records: their queue pairs lead to each other.
use omnireduce.Base.{ℕ, ◌<◌, ◌≡◌, ap, ◌∙◌, arith, pos, some, none}
use omnireduce.Outcome.{ok}
use omnireduce.Params.{Params}
use omnireduce.Connection.{master_mid, master_qid}
use omnireduce.Connection.Pairing.{master_mid-lt, master_qid-lt, aggmaster_qid-master_qid}
use omnireduce.ConData.{ByteOrder, Host, master_con_data, aggmaster_con_data}
use omnireduce.ConData.Fields.{IsByteOrder, IsHost}
use omnireduce.QueuePairs.Peers.{calls_of, Distinct, table-peer}
use omnireduce.Setup.{System, Running, master, aggmaster}
use omnireduce.Setup.Threads.{Willing}
use omnireduce.Setup.Cluster.{IsSized, worker_qps, aggregator_qps, towards, master-IsWorker}
use omnireduce.Setup.Servers.{aggmaster-IsServer}

-- The hosts of a cluster, and what is on the stack where a record is built.
pub record Hosts : Type 0 where
  pub worker : ℕ → Host
  pub server : ℕ → Host
  pub stack : ℕ → ℕ → ℕ

pub record IsCluster (p : Params) (c : Hosts) : Type 0 where
  pub workers : (w : ℕ) → IsHost (c.worker w)
  pub servers : (a : ℕ) → IsHost (c.server a)
  pub worker_distinct : (w : ℕ) → Distinct (c.worker w) (worker_qps p)
  pub server_distinct : (a : ℕ) → Distinct (c.server a) (aggregator_qps p)

-- What worker `w` receives, and aggregator `a`.
abbrev pub WorkerHears : ByteOrder → Params → Hosts → ℕ → System → Type 0
WorkerHears o p c w sys =
    (a : ℕ)
    → a < p.num_aggregators
    → sys.sync_data a ≡ (pos 0, aggmaster_con_data o p (c.server a) w (c.stack a))

abbrev pub ServerHears : ByteOrder → Params → Hosts → ℕ → System → Type 0
ServerHears o p c a sys =
    (w : ℕ)
    → w < p.num_workers
    → sys.sync_data w ≡ (pos 0, master_con_data o p (c.worker w) a (c.stack w))

-- Nothing known yet.
abbrev pub Fresh : Running → Type 0
Fresh before = (q : ℕ) → before.qp_num_to_peerid q ≡ none

module _ (o : ByteOrder) (p : Params) (c : Hosts) (w i : ℕ) where
  -- The other end of queue pair `i` of worker `w`.
  abbrev pub peer_of : ℕ
  peer_of = master_mid p.num_aggregators p.num_qps_per_aggregator_per_thread i

  abbrev pub end_of : ℕ
  end_of = master_qid p.num_workers p.num_aggregators p.num_qps_per_aggregator_per_thread w i

  -- Both processes run, and each brings its end up towards the other.
  pub record IsPaired (r s : Running) : Type 0 where
    pub there : calls_of i r.qp_calls ≡ towards p i (c.server peer_of) end_of
    pub back : calls_of end_of s.qp_calls ≡ towards p end_of (c.worker w) i
    pub known : r.qp_num_to_peerid ((c.worker w).qp i) ≡ some peer_of
    pub known_back : s.qp_num_to_peerid ((c.server peer_of).qp end_of) ≡ some w

  -- With conversions of byte order that undo each other, at least one worker, aggregator and
  -- queue pair, queue pairs that fit the arrays and have different numbers, and a system in
  -- which no call fails: when a worker and the aggregator to which one of its queue pairs
  -- leads receive the records that the processes of the cluster send, both get to their
  -- threads; that queue pair goes to INIT, to RTR towards a queue pair of the aggregator and
  -- to RTS, that one does the same towards it, and each side has the other as the peer in its
  -- table.
  pub master-aggmaster :
      (sys sys' : System) (before before' : Running)
      → IsByteOrder o
      → IsSized p
      → IsCluster p c
      → w < p.num_workers
      → i < worker_qps p
      → Willing sys
      → Willing sys'
      → Fresh before
      → Fresh before'
      → WorkerHears o p c w sys
      → ServerHears o p c peer_of sys'
      → (r s : Running) × (master sys o p (c.worker w) before ≡ ok r)
        × (aggmaster sys' o p (c.server peer_of) before' ≡ ok s)
        × IsPaired r s
  master-aggmaster sys sys' before before' order sized cluster low inside willing willing' fresh
        fresh' hears hears' =
      let nq = p.num_qps_per_aggregator_per_thread in
      let exists = master_mid-lt p.num_aggregators nq i sized.some_aggregators in
      let within =
        master_qid-lt p.num_workers p.num_aggregators nq p.num_worker_threads w i low
          sized.some_aggregators sized.some_qps inside in
      let (r, ran, x) =
        master-IsWorker o p order sized sys c.server (c.worker w) w before c.stack willing
          cluster.servers low hears in
      let (s, ran', y) =
        aggmaster-IsServer o p order sized sys' c.worker (c.server peer_of) peer_of before' c.stack
          willing' cluster.workers exists hears' in
      let (self, whole) =
        aggmaster_qid-master_qid p.num_workers p.num_aggregators nq w i low sized.some_aggregators
          sized.some_qps in
      (
        r,
        s,
        ran,
        ran',
        record {
          there = x.led i inside;
          back = rw (self, whole) at (y.led end_of within);
          known = rw (x.table_of) (
              table-peer (c.worker w) _ (worker_qps p) 0 (worker_qps p) i before.qp_num_to_peerid
                (cluster.worker_distinct w) (omega arith) (omega arith) (omega arith) (fresh _));
          known_back = rw (y.table_of) (
              table-peer (c.server peer_of) _ (aggregator_qps p) 0 (aggregator_qps p) end_of
                before'.qp_num_to_peerid (cluster.server_distinct peer_of) (omega arith)
                (omega arith) (omega arith) (fresh' _)
              ∙ ap some self);
        },
      )
