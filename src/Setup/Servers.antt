-- ===== src/Setup/Servers.antt =====
-- An aggregator set up, among the workers of its cluster.
use omnireduce.Base.{ℕ, ◌*◌, ◌≤◌, ◌<◌, ◌≡◌, inl, inr, refl, ◌∙◌, arith, Bool-cases, ◌++◌, pos}
use omnireduce.Outcome.{ok}
use omnireduce.Params.{Params}
use omnireduce.Connection.{aggmaster_mid, aggmaster_qid}
use omnireduce.Connection.Pairing.{aggmaster_mid-lt, aggmaster_qid-lt}
use omnireduce.ConData.{
  max_qps, ByteOrder, ConData, RemoteData, Host, master_con_data, remote_data, is_negative,
}
use omnireduce.ConData.Fields.{IsByteOrder, IsHost, Knows, remote_data-master_con_data}
use omnireduce.ConData.Peers.{filled, filled-inside, exchange-filled}
use omnireduce.QueuePairs.{data_qp, address_qp}
use omnireduce.QueuePairs.Calls.{
  ladders, table, aggmaster_target, aggmaster_connect-ladders, connect_addresses-ladders,
}
use omnireduce.QueuePairs.Peers.{calls_of, calls_of-whole}
use omnireduce.Setup.{System, Running, aggmaster, threads}
use omnireduce.Setup.Threads.{Willing, thread_calls_of, sync_all-ready, threads-thread_calls_of}
use omnireduce.Setup.Cluster.{IsSized, worker_qps, aggregator_qps, towards, ladder-towards}

module _ (o : ByteOrder) (p : Params) (order : IsByteOrder o) (sized : IsSized p) where
  -- Aggregator `a` after its setup, where the workers are `g`.
  pub record IsServer (g : ℕ → Host) (h : Host) (w : ℕ) (before r : Running) : Type 0 where
    pub id : r.id ≡ w
    pub peers : (a : ℕ) → a < p.num_workers → Knows (g a) w (worker_qps p) (r.remote_props a)
    pub led :
        (i : ℕ)
        → i < aggregator_qps p
        → calls_of i r.qp_calls
          ≡ towards p i (g (aggmaster_mid p.num_workers p.num_qps_per_aggregator_per_thread i)) (
              aggmaster_qid p.num_workers p.num_aggregators p.num_qps_per_aggregator_per_thread w i)
    pub table_of :
        r.qp_num_to_peerid
        ≡ table h
            (λ i. aggmaster_mid p.num_workers p.num_qps_per_aggregator_per_thread i)
            0
            (aggregator_qps p)
            before.qp_num_to_peerid
    pub run : r.thread_calls ≡ thread_calls_of p p.aggregator_cores

  pub aggmaster-IsServer :
      (sys : System) (g : ℕ → Host) (h : Host) (w : ℕ) (before : Running) (was : ℕ → ℕ → ℕ)
      → Willing sys
      → ((a : ℕ) → IsHost (g a))
      → w < p.num_aggregators
      → ((a : ℕ)
          → a < p.num_workers
          → sys.sync_data a ≡ (pos 0, master_con_data o p (g a) w (was a)))
      → (r : Running) × (aggmaster sys o p h before ≡ ok r) × IsServer g h w before r
  unfolding aggmaster master_con_data
  aggmaster-IsServer sys g h w before was willing hosts low sent =
      let nq = p.num_qps_per_aggregator_per_thread in
      let n = p.num_aggregators * nq * p.num_worker_threads in
      let whole : n ≡ worker_qps p = omega arith in
      let few : n ≤ max_qps = omega (arith, sized.worker_fits) in
      let take : ℕ → ConData → RemoteData =
        λ a d. remote_data o n d (before.remote_props a).qp_num in
      let d : ℕ → ConData = λ a. master_con_data o p (g a) w (was a) in
      let props = filled take d 0 p.num_workers before.remote_props in
      let peers =
        table h (λ i. aggmaster_mid p.num_workers nq i) 0 (aggregator_qps p)
          before.qp_num_to_peerid in
      let data_calls = ladders p data_qp (aggmaster_target p w props) 0 (aggregator_qps p) in
      let address_calls =
        ladders p address_qp (λ j. ((props j).qp_num max_qps, props j)) 0 p.num_workers in
      let swapped =
        exchange-filled sys.sync_data p.num_aggregators take 0 p.num_workers before.id w
          before.remote_props d
          (λ a l h'. record { came = sent a (omega arith); named = refl; counted = refl })
          (inr (refl, ground (arith, sized.some_workers))) in
      let r : Running = record {
        id = w;
        remote_props = props;
        qp_num_to_peerid = peers;
        qp_calls = data_calls ++ address_calls;
        thread_calls = thread_calls_of p p.aggregator_cores;
      } in
      let connected =
        aggmaster_connect-ladders sys.modify_qp p willing.agreed h w props 0 (aggregator_qps p)
          before.qp_num_to_peerid in
      let addressed =
        connect_addresses-ladders sys.modify_qp p willing.agreed props 0 p.num_workers in
      let synced =
        sync_all-ready sys.sync_ready 0 p.num_workers (threads sys p p.aggregator_cores)
          willing.ready in
      let threaded = threads-thread_calls_of sys p p.aggregator_cores willing in
      let knows : (a : ℕ) → a < p.num_workers → Knows (g a) w (worker_qps p) (props a) = λ a l.
        rw (filled-inside take d 0 p.num_workers a before.remote_props (omega arith) (omega arith))
          (remote_data-master_con_data o p (g a) order (hosts a) w (was a)
            (before.remote_props a).qp_num n whole few) in
      (
        r,
        elim (Bool-cases (is_negative p.gid_idx)) [
          | inl e ↦ rw (e, swapped, connected, addressed, synced, threaded) refl
          | inr e ↦ rw (e, willing.gid, swapped, connected, addressed, synced, threaded) refl
        ],
        record {
          id = refl;
          peers = knows;
          led = λ i l.
              let a = aggmaster_mid p.num_workers nq i in
              let inside =
                aggmaster_qid-lt p.num_workers p.num_aggregators nq p.num_worker_threads w i low
                  sized.some_workers sized.some_qps l in
              calls_of-whole p (aggmaster_target p w props)
                (λ j. ((props j).qp_num max_qps, props j)) i (aggregator_qps p) p.num_workers l
              ∙ ladder-towards p i (aggmaster_qid p.num_workers p.num_aggregators nq w i)
                  (worker_qps p) w (g a) (props a)
                  (knows a (aggmaster_mid-lt p.num_workers nq i sized.some_workers)) inside;
          table_of = refl;
          run = refl;
        },
      )
