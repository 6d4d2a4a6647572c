-- ===== src/Setup/Cluster.antt =====
-- All processes of a cluster set up: what each knows of its peers, and where its queue pairs lead.
use omnireduce.Base.{
  ℕ, ◌*◌, ◌≤◌, ◌<◌, ◌≡◌, inl, inr, refl, ◌∙◌, arith, Bool-cases, List, [], ◌∷◌, ◌++◌, pos,
}
use omnireduce.Outcome.{ok}
use omnireduce.Params.{Params}
use omnireduce.Connection.{master_mid, master_qid}
use omnireduce.Connection.Pairing.{master_mid-lt, master_qid-lt}
use omnireduce.ConData.{
  max_qps, ByteOrder, ConData, RemoteData, Host, aggmaster_con_data, remote_data, is_negative,
}
use omnireduce.ConData.Fields.{IsByteOrder, IsHost, Knows, remote_data-aggmaster_con_data}
use omnireduce.ConData.Peers.{filled, filled-inside, exchange-filled}
use omnireduce.QueuePairs.{
  QpCall, data_qp, address_qp, modify_qp_to_init, modify_qp_to_rtr, modify_qp_to_rts,
}
use omnireduce.QueuePairs.Calls.{
  ladder, ladders, table, master_target, master_connect-ladders, connect_addresses-ladders,
}
use omnireduce.QueuePairs.Peers.{calls_of, calls_of-whole}
use omnireduce.Setup.{System, Running, master, threads}
use omnireduce.Setup.Threads.{Willing, thread_calls_of, sync_all-ready, threads-thread_calls_of}

-- The queue pairs of a worker, and of an aggregator.
abbrev pub worker_qps : Params → ℕ
worker_qps p = p.num_qps_per_aggregator_per_thread * p.num_aggregators * p.num_worker_threads

abbrev pub aggregator_qps : Params → ℕ
aggregator_qps p = p.num_qps_per_aggregator_per_thread * p.num_workers * p.num_worker_threads

-- The calls that bring queue pair `i` up towards queue pair `j` of `h`.
abbrev pub towards : Params → ℕ → Host → ℕ → List QpCall
towards p i h j =
    modify_qp_to_init (data_qp i) p.ib_port
    ∷ modify_qp_to_rtr (data_qp i) (h.qp j) h.lid h.my_gid p
    ∷ modify_qp_to_rts (data_qp i)
    ∷ []

-- A configuration with something in it, whose queue pairs fit the arrays.
pub record IsSized (p : Params) : Type 0 where
  pub some_workers : 0 < p.num_workers
  pub some_aggregators : 0 < p.num_aggregators
  pub some_qps : 0 < p.num_qps_per_aggregator_per_thread
  pub worker_fits : worker_qps p ≤ max_qps
  pub aggregator_fits : aggregator_qps p ≤ max_qps

pub ladder-towards :
    (p : Params) (i j n k : ℕ) (h : Host) (r : RemoteData)
    → Knows h k n r
    → j < n
    → ladder p (data_qp i) (r.qp_num j, r) ≡ towards p i h j
ladder-towards p i j n k h r known low = rw (known.qps j low, known.port, known.gid) refl

module _ (o : ByteOrder) (p : Params) (order : IsByteOrder o) (sized : IsSized p) where
  -- Worker `w` after its setup, where the aggregators are `g`.
  pub record IsWorker (g : ℕ → Host) (h : Host) (w : ℕ) (before r : Running) : Type 0 where
    pub id : r.id ≡ w
    pub peers :
        (a : ℕ) → a < p.num_aggregators → Knows (g a) w (aggregator_qps p) (r.remote_props a)
    pub led :
        (i : ℕ)
        → i < worker_qps p
        → calls_of i r.qp_calls
          ≡ towards p i
              (g (master_mid p.num_aggregators p.num_qps_per_aggregator_per_thread i))
              (master_qid p.num_workers p.num_aggregators p.num_qps_per_aggregator_per_thread w i)
    pub table_of :
        r.qp_num_to_peerid
        ≡ table h
            (λ i. master_mid p.num_aggregators p.num_qps_per_aggregator_per_thread i)
            0
            (worker_qps p)
            before.qp_num_to_peerid
    pub run : r.thread_calls ≡ thread_calls_of p p.worker_cores

  pub master-IsWorker :
      (sys : System) (g : ℕ → Host) (h : Host) (w : ℕ) (before : Running) (was : ℕ → ℕ → ℕ)
      → Willing sys
      → ((a : ℕ) → IsHost (g a))
      → w < p.num_workers
      → ((a : ℕ)
          → a < p.num_aggregators
          → sys.sync_data a ≡ (pos 0, aggmaster_con_data o p (g a) w (was a)))
      → (r : Running) × (master sys o p h before ≡ ok r) × IsWorker g h w before r
  unfolding master aggmaster_con_data
  master-IsWorker sys g h w before was willing hosts low sent =
      let nq = p.num_qps_per_aggregator_per_thread in
      let n = p.num_workers * nq * p.num_worker_threads in
      let whole : n ≡ aggregator_qps p = omega arith in
      let few : n ≤ max_qps = omega (arith, sized.aggregator_fits) in
      let take : ℕ → ConData → RemoteData =
        λ a d. remote_data o n d (before.remote_props a).qp_num in
      let d : ℕ → ConData = λ a. aggmaster_con_data o p (g a) w (was a) in
      let props = filled take d 0 p.num_aggregators before.remote_props in
      let peers =
        table h (λ i. master_mid p.num_aggregators nq i) 0 (worker_qps p) before.qp_num_to_peerid in
      let data_calls = ladders p data_qp (master_target p w props) 0 (worker_qps p) in
      let address_calls =
        ladders p address_qp (λ j. ((props j).qp_num max_qps, props j)) 0 p.num_aggregators in
      let swapped =
        exchange-filled sys.sync_data p.num_workers take 0 p.num_aggregators before.id w
          before.remote_props d
          (λ a l h'. record { came = sent a (omega arith); named = refl; counted = refl })
          (inr (refl, ground (arith, sized.some_aggregators))) in
      let r : Running = record {
        id = w;
        remote_props = props;
        qp_num_to_peerid = peers;
        qp_calls = data_calls ++ address_calls;
        thread_calls = thread_calls_of p p.worker_cores;
      } in
      let connected =
        master_connect-ladders sys.modify_qp p willing.agreed h w props 0 (worker_qps p)
          before.qp_num_to_peerid in
      let addressed =
        connect_addresses-ladders sys.modify_qp p willing.agreed props 0 p.num_aggregators in
      let synced =
        sync_all-ready sys.sync_ready 0 p.num_aggregators (threads sys p p.worker_cores)
          willing.ready in
      let threaded = threads-thread_calls_of sys p p.worker_cores willing in
      let knows : (a : ℕ) → a < p.num_aggregators → Knows (g a) w (aggregator_qps p) (props a) =
        λ a l.
          rw
            (filled-inside take d 0 p.num_aggregators a before.remote_props (omega arith)
              (omega arith))
            (remote_data-aggmaster_con_data o p (g a) order (hosts a) w (was a)
              (before.remote_props a).qp_num n whole few) in
      (
        r,
        elim (Bool-cases (is_negative p.gid_idx)) [
          | inl e ↦ rw (e, swapped, connected, addressed, synced, threaded) refl
          | inr e ↦ rw (e, willing.gid, swapped, connected, addressed, synced, threaded) refl
        ],
        record {
          id = refl;
          peers = knows;
          led = λ i l.
              let a = master_mid p.num_aggregators nq i in
              let inside =
                master_qid-lt p.num_workers p.num_aggregators nq p.num_worker_threads w i low
                  sized.some_aggregators sized.some_qps l in
              calls_of-whole p (master_target p w props) (λ j. ((props j).qp_num max_qps, props j))
                i (worker_qps p) p.num_aggregators l
              ∙ ladder-towards p i (master_qid p.num_workers p.num_aggregators nq w i)
                  (aggregator_qps p) w (g a) (props a)
                  (knows a (master_mid-lt p.num_aggregators nq i sized.some_aggregators)) inside;
          table_of = refl;
          run = refl;
        },
      )
