-- ===== src/QueuePairs.antt =====
-- How master and aggmaster of omnireduce/omnireduce.cpp bring their queue pairs up. The results of
-- ibv_modify_qp are an argument; the calls that are made are the result.
pub mod Calls
pub mod Peers
use omnireduce.Base.{
  ℕ, zero, suc, ◌+◌, Bool, true, false, List, [], ◌∷◌, ◌++◌, Option, some, none, ℤ, if◌then◌else◌,
  update,
}
use omnireduce.Outcome.{Failure, Outcome, ok, failed, ◌>>=◌}
use omnireduce.Params.{Params}
use omnireduce.Connection.{master_mid, master_qid, aggmaster_mid, aggmaster_qid}
use omnireduce.ConData.{max_qps, Host, RemoteData, is_zero, is_negative}

-- The queue pairs of a process: those of the threads, and those for addresses.
pub data QpRef : Type 0 where
  data_qp address_qp : ℕ → QpRef

-- What ibv_modify_qp sets on the way to RTR and to RTS.
pub record RtrAttr : Type 0 where
  pub dest_qp_num : ℕ
  pub rq_psn : ℕ
  pub max_dest_rd_atomic : ℕ
  pub min_rnr_timer : ℕ
  pub dlid : ℕ
  pub sl : ℤ
  pub port_num : ℤ
  pub grh : Option ((ℕ → ℕ) × ℤ)

pub record RtsAttr : Type 0 where
  pub timeout : ℕ
  pub retry_cnt : ℕ
  pub rnr_retry : ℕ
  pub sq_psn : ℕ
  pub max_rd_atomic : ℕ

-- Calls of ibv_modify_qp.
pub data QpCall : Type 0 where
  to_init : QpRef → (ib_port : ℤ) → QpCall
  to_rtr : QpRef → RtrAttr → QpCall
  to_rts : QpRef → RtsAttr → QpCall

unfoldable pub modify_qp_to_init : QpRef → ℤ → QpCall
modify_qp_to_init qp ib_port = QpCall.to_init qp ib_port

-- The global route, with hop limit 1, only where a gid is configured.
unfoldable pub modify_qp_to_rtr : QpRef → (remote_qpn dlid : ℕ) → (dgid : ℕ → ℕ) → Params → QpCall
modify_qp_to_rtr qp remote_qpn dlid dgid p = QpCall.to_rtr qp (record {
  dest_qp_num = remote_qpn;
  rq_psn = 0;
  max_dest_rd_atomic = 1;
  min_rnr_timer = 18;
  dlid = dlid;
  sl = p.sl;
  port_num = p.ib_port;
  grh = if is_negative p.gid_idx then none else some (dgid, p.gid_idx);
})

unfoldable pub modify_qp_to_rts : QpRef → QpCall
modify_qp_to_rts qp =
    QpCall.to_rts qp
      (record { timeout = 14; retry_cnt = 7; rnr_retry = 7; sq_psn = 0; max_rd_atomic = 1 })

-- A call whose result is not 0 ends the process.
unfoldable pub modify : (QpCall → ℤ) → QpCall → Outcome QpCall
modify rc call = if is_zero (rc call) then ok call else failed Failure.qp_failed

-- One queue pair, towards number `qpn` of the peer `r`.
unfoldable pub connect_qp :
    (QpCall → ℤ) → Params → QpRef → (qpn : ℕ) → RemoteData → Outcome (List QpCall)
unfolding modify modify_qp_to_init modify_qp_to_rtr modify_qp_to_rts
connect_qp rc p qp qpn r = do
  a ← modify rc (modify_qp_to_init qp p.ib_port)
  b ← modify rc (modify_qp_to_rtr qp qpn r.lid r.gid p)
  c ← modify rc (modify_qp_to_rts qp)
  ok (a ∷ b ∷ c ∷ [])

abbrev pub is_some : Option ℕ → Bool
is_some none = false
is_some (some x) = true

-- std::map::insert keeps what is there.
unfoldable pub insert_peer : ℕ → ℕ → (ℕ → Option ℕ) → ℕ → Option ℕ
insert_peer qp_num peer m = if is_some (m qp_num) then m else update m qp_num (some peer)

-- Queue pairs `i` to `i + n - 1` of the threads, and the table of their peers.
unfoldable pub master_connect :
    (QpCall → ℤ)
    → Params
    → Host
    → (id : ℕ) → (ℕ → RemoteData)
    → (i n : ℕ) → (ℕ → Option ℕ)
    → Outcome ((ℕ → Option ℕ) × List QpCall)
unfolding master_mid master_qid connect_qp insert_peer
master_connect rc p h id props i zero peers = ok (peers, [])
master_connect rc p h id props i (suc n) peers = do
  let nq = p.num_qps_per_aggregator_per_thread
  let mid = master_mid p.num_aggregators nq i
  let qid = master_qid p.num_workers p.num_aggregators nq id i
  calls ← connect_qp rc p (QpRef.data_qp i) ((props mid).qp_num qid) (props mid)
  (all, rest) ← master_connect rc p h id props (i + 1) n (insert_peer (h.qp i) mid peers)
  ok (all, calls ++ rest)

unfoldable pub aggmaster_connect :
    (QpCall → ℤ)
    → Params
    → Host
    → (id : ℕ) → (ℕ → RemoteData)
    → (i n : ℕ) → (ℕ → Option ℕ)
    → Outcome ((ℕ → Option ℕ) × List QpCall)
unfolding aggmaster_mid aggmaster_qid connect_qp insert_peer
aggmaster_connect rc p h id props i zero peers = ok (peers, [])
aggmaster_connect rc p h id props i (suc n) peers = do
  let nq = p.num_qps_per_aggregator_per_thread
  let mid = aggmaster_mid p.num_workers nq i
  let qid = aggmaster_qid p.num_workers p.num_aggregators nq id i
  calls ← connect_qp rc p (QpRef.data_qp i) ((props mid).qp_num qid) (props mid)
  (all, rest) ← aggmaster_connect rc p h id props (i + 1) n (insert_peer (h.qp i) mid peers)
  ok (all, calls ++ rest)

-- The queue pairs for addresses, one for each peer.
unfoldable pub connect_addresses :
    (QpCall → ℤ) → Params → (ℕ → RemoteData) → (i n : ℕ) → Outcome (List QpCall)
unfolding connect_qp
connect_addresses rc p props i zero = ok []
connect_addresses rc p props i (suc n) = do
  calls ← connect_qp rc p (QpRef.address_qp i) ((props i).qp_num max_qps) (props i)
  rest ← connect_addresses rc p props (i + 1) n
  ok (calls ++ rest)
