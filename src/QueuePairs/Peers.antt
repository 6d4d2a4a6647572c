-- ===== src/QueuePairs/Peers.antt =====
-- What one queue pair sees of all the calls, and what the table of peers says of it.
use omnireduce.Base.{
  ℕ, zero, suc, ◌+◌, ◌≤◌, ◌<◌, ◌≡◌, refl, ◌∙◌, arith, true, false, List, [], ◌∷◌, ◌++◌, Option,
  some, none, ◌==◌, ==_iff, if◌then◌else◌, ℕ_discrete, Option-cases, Bool-cases, inl, inr,
}
use omnireduce.Params.{Params}
use omnireduce.ConData.{Host, RemoteData}
use omnireduce.QueuePairs.{
  QpCall, data_qp, address_qp, to_init, to_rtr, to_rts, modify_qp_to_init, modify_qp_to_rtr,
  modify_qp_to_rts, insert_peer,
}
use omnireduce.QueuePairs.Calls.{ladder, ladders, table}

-- The calls for queue pair `j` of the threads, in order.
abbrev pub calls_of : ℕ → List QpCall → List QpCall
calls_of j [] = []
calls_of j (to_init (address_qp i) port ∷ cs) = calls_of j cs
calls_of j (to_rtr (address_qp i) a ∷ cs) = calls_of j cs
calls_of j (to_rts (address_qp i) a ∷ cs) = calls_of j cs
calls_of j (to_init (data_qp i) port ∷ cs) =
    let rest = calls_of j cs in if i == j then to_init (data_qp i) port ∷ rest else rest
calls_of j (to_rtr (data_qp i) a ∷ cs) =
    let rest = calls_of j cs in if i == j then to_rtr (data_qp i) a ∷ rest else rest
calls_of j (to_rts (data_qp i) a ∷ cs) =
    let rest = calls_of j cs in if i == j then to_rts (data_qp i) a ∷ rest else rest

module _ (p : Params) (target : ℕ → ℕ × RemoteData) (j : ℕ) where
  calls_of-addresses : (i n : ℕ) → calls_of j (ladders p address_qp target i n) ≡ []
  unfolding modify_qp_to_init modify_qp_to_rtr modify_qp_to_rts
  calls_of-addresses i zero = refl
  calls_of-addresses i (suc n) = calls_of-addresses (i + 1) n

  -- Queue pairs above `j`, and then other calls.
  calls_of-above :
      (i n : ℕ) (cs : List QpCall)
      → j < i
      → calls_of j (ladders p data_qp target i n ++ cs) ≡ calls_of j cs
  unfolding modify_qp_to_init modify_qp_to_rtr modify_qp_to_rts
  calls_of-above i zero cs high = refl
  calls_of-above i (suc n) cs high =
      let other : (i == j) ≡ false = ground arith in
      rw other (calls_of-above (i + 1) n cs (omega arith))

  calls_of-ladders :
      (i n : ℕ) (cs : List QpCall)
      → i ≤ j
      → j < i + n
      → calls_of j (ladders p data_qp target i n ++ cs)
        ≡ ladder p (data_qp j) (target j) ++ calls_of j cs
  unfolding modify_qp_to_init modify_qp_to_rtr modify_qp_to_rts
  calls_of-ladders i zero cs low high = absurd (omega arith)
  calls_of-ladders i (suc n) cs low high = elim (ℕ_discrete i j) [
    | yes e ↦
        let self : (j == j) ≡ true = (==_iff j j).1 refl in
        rw (e, self, calls_of-above (j + 1) n cs (omega arith)) refl
    | no e ↦
        let other : (i == j) ≡ false = ground arith in
        rw other (calls_of-ladders (i + 1) n cs (omega arith) (omega arith))
  ]

pub calls_of-whole :
    (p : Params) (target address_target : ℕ → ℕ × RemoteData) (j n k : ℕ)
    → j < n
    → calls_of j (ladders p data_qp target 0 n ++ ladders p address_qp address_target 0 k)
      ≡ ladder p (data_qp j) (target j)
calls_of-whole p target address_target j n k high =
    calls_of-ladders p target j 0 n _ (omega arith) (omega arith)
    ∙ rw (calls_of-addresses p address_target j 0 k) refl

-- The numbers of different queue pairs differ.
abbrev pub Distinct : Host → ℕ → Type 0
Distinct h n = (a b : ℕ) → a < n → b < n → h.qp a ≡ h.qp b → a ≡ b

insert_peer-known : (k x q v : ℕ) (m : ℕ → Option ℕ) → m q ≡ some v → insert_peer k x m q ≡ some v
unfolding insert_peer
insert_peer-known k x q v m known = elim (Option-cases (m k)) [
  | inl e ↦
      let other : (q == k) ≡ false = ground (arith, Bool-cases (q == k)) in rw (e, other) known
  | inr (w, e) ↦ rw e known
]

insert_peer-here : (k x : ℕ) (m : ℕ → Option ℕ) → m k ≡ none → insert_peer k x m k ≡ some x
unfolding insert_peer
insert_peer-here k x m free = rw (free, (==_iff k k).1 refl) refl

insert_peer-other : (k x q : ℕ) (m : ℕ → Option ℕ) → (q == k) ≡ false → insert_peer k x m q ≡ m q
unfolding insert_peer
insert_peer-other k x q m other = elim (Option-cases (m k)) [
  | inl e ↦ rw (e, other) refl
  | inr (w, e) ↦ rw e refl
]

module _ (h : Host) (peer : ℕ → ℕ) where
  table-known : (i n q v : ℕ) (m : ℕ → Option ℕ) → m q ≡ some v → table h peer i n m q ≡ some v
  unfolding insert_peer
  table-known i zero q v m known = known
  table-known i (suc n) q v m known =
      table-known (i + 1) n q v (insert_peer (h.qp i) (peer i) m)
        (insert_peer-known (h.qp i) (peer i) q v m known)

  pub table-peer :
      (total i n j : ℕ) (m : ℕ → Option ℕ)
      → Distinct h total
      → i + n ≤ total
      → i ≤ j
      → j < i + n
      → m (h.qp j) ≡ none
      → table h peer i n m (h.qp j) ≡ some (peer j)
  unfolding insert_peer
  table-peer total i zero j m apart fits low high free = absurd (omega arith)
  table-peer total i (suc n) j m apart fits low high free = elim (ℕ_discrete i j) [
    | yes e ↦
        table-known (i + 1) n (h.qp j) (peer j) _ (rw e (insert_peer-here (h.qp j) (peer j) m free))
    | no e ↦
        table-peer total (i + 1) n j _ apart (omega arith) (omega arith) (omega arith)
          (insert_peer-other (h.qp i) (peer i) (h.qp j) m (ground (arith, apart j i)) ∙ free)
  ]
