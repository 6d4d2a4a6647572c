-- ===== src/QueuePairs/Calls.antt =====
-- Where verbs agree, every queue pair goes to INIT, to RTR towards its peer and to RTS, in that order.
use omnireduce.Base.{ℕ, zero, suc, ◌+◌, ◌≡◌, refl, List, [], ◌∷◌, ◌++◌, Option, ℤ, pos}
use omnireduce.Outcome.{ok}
use omnireduce.Params.{Params}
use omnireduce.ConData.{max_qps, Host, RemoteData}
use omnireduce.Connection.{master_mid, master_qid, aggmaster_mid, aggmaster_qid}
use omnireduce.QueuePairs.{
  QpRef, QpCall, data_qp, address_qp, modify_qp_to_init, modify_qp_to_rtr, modify_qp_to_rts,
  connect_qp, insert_peer, master_connect, aggmaster_connect, connect_addresses,
}

-- Verbs agree to every call.
abbrev pub Agreed : (QpCall → ℤ) → Type 0
Agreed rc = (call : QpCall) → rc call ≡ pos 0

-- The three calls for a queue pair, towards number `t.0` of `t.1`.
abbrev pub ladder : Params → QpRef → ℕ × RemoteData → List QpCall
ladder p qp t =
    modify_qp_to_init qp p.ib_port
    ∷ modify_qp_to_rtr qp (t.0) (t.1).lid (t.1).gid p
    ∷ modify_qp_to_rts qp
    ∷ []

abbrev pub ladders : Params → (ℕ → QpRef) → (ℕ → ℕ × RemoteData) → (i n : ℕ) → List QpCall
ladders p qp target i zero = []
ladders p qp target i (suc n) = ladder p (qp i) (target i) ++ ladders p qp target (i + 1) n

-- The table after queue pairs `i` to `i + n - 1`.
abbrev pub table : Host → (ℕ → ℕ) → (i n : ℕ) → (ℕ → Option ℕ) → ℕ → Option ℕ
table h peer i zero m = m
table h peer i (suc n) m = table h peer (i + 1) n (insert_peer (h.qp i) (peer i) m)

-- What queue pair `i` of a worker is connected to, and queue pair `i` of an aggregator.
abbrev pub master_target : Params → ℕ → (ℕ → RemoteData) → ℕ → ℕ × RemoteData
master_target p id props i =
    let nq = p.num_qps_per_aggregator_per_thread in
    let r = props (master_mid p.num_aggregators nq i) in
    (r.qp_num (master_qid p.num_workers p.num_aggregators nq id i), r)

abbrev pub aggmaster_target : Params → ℕ → (ℕ → RemoteData) → ℕ → ℕ × RemoteData
aggmaster_target p id props i =
    let nq = p.num_qps_per_aggregator_per_thread in
    let r = props (aggmaster_mid p.num_workers nq i) in
    (r.qp_num (aggmaster_qid p.num_workers p.num_aggregators nq id i), r)

connect_qp-ladder :
    (rc : QpCall → ℤ) (p : Params) (qp : QpRef) (qpn : ℕ) (r : RemoteData)
    → Agreed rc
    → connect_qp rc p qp qpn r ≡ ok (ladder p qp (qpn, r))
unfolding connect_qp
connect_qp-ladder rc p qp qpn r agreed = simp agreed

module _ (rc : QpCall → ℤ) (p : Params) (agreed : Agreed rc) where
  pub master_connect-ladders :
      (h : Host) (id : ℕ) (props : ℕ → RemoteData) (i n : ℕ) (m : ℕ → Option ℕ)
      → master_connect rc p h id props i n m
        ≡ ok (
          table h (λ j. master_mid p.num_aggregators p.num_qps_per_aggregator_per_thread j) i n m,
          ladders p data_qp (master_target p id props) i n,
        )
  unfolding master_connect
  master_connect-ladders h id props i zero m = refl
  master_connect-ladders h id props i (suc n) m =
      simp
        (connect_qp-ladder rc p (data_qp i) _ _ agreed, master_connect-ladders h id props (i + 1) n)

  pub aggmaster_connect-ladders :
      (h : Host) (id : ℕ) (props : ℕ → RemoteData) (i n : ℕ) (m : ℕ → Option ℕ)
      → aggmaster_connect rc p h id props i n m
        ≡ ok (
          table h (λ j. aggmaster_mid p.num_workers p.num_qps_per_aggregator_per_thread j) i n m,
          ladders p data_qp (aggmaster_target p id props) i n,
        )
  unfolding aggmaster_connect
  aggmaster_connect-ladders h id props i zero m = refl
  aggmaster_connect-ladders h id props i (suc n) m = simp (
    connect_qp-ladder rc p (data_qp i) _ _ agreed,
    aggmaster_connect-ladders h id props (i + 1) n,
  )

  pub connect_addresses-ladders :
      (props : ℕ → RemoteData) (i n : ℕ)
      → connect_addresses rc p props i n
        ≡ ok (ladders p address_qp (λ j. ((props j).qp_num max_qps, props j)) i n)
  unfolding connect_addresses
  connect_addresses-ladders props i zero = refl
  connect_addresses-ladders props i (suc n) =
      simp (
        connect_qp-ladder rc p (address_qp i) _ _ agreed,
        connect_addresses-ladders props (i + 1) n,
      )
