-- ===== src/AggContext/Collect.antt =====
-- From the first address of a tensor to the last: the aggregator waits for every worker before it lets
-- any of them send.
use omnireduce.Base.{
  ℕ, zero, suc, ◌+◌, ◌≤◌, ◌<◌, ◌≡◌, ◌∙◌, arith, Bool-cases, ==_iff, inl, inr, List, [], ◌∷◌, ◌++◌,
  ◌==◌,
}
use omnireduce.Outcome.{Failure, Outcome, ok, failed, Outcome-cases, ◌>>=◌}
use omnireduce.AllReduce.{Address}
use omnireduce.AggContext.{Server, AddressRequest, handle_address, learn, learn_all}
use omnireduce.AggContext.Learn.{learn-ok, learn-failed, Refused}

-- Completions one after the other, each with what `srcs` holds by then, and all that is posted.
abbrev pub collect : List (ℕ → Address) → Server → Outcome (Server × List AddressRequest)
collect [] s = ok (s, [])
collect (m ∷ ms) s = do
  (t, posted) ← handle_address (record s { srcs = m })
  (u, rest) ← collect ms t
  ok (u, posted ++ rest)

-- The server at a later completion.
abbrev pub waiting : List (ℕ → Address) → Server → Server
waiting [] s = s
waiting (m ∷ ms) s = waiting ms (record s { srcs = m; worker_count = s.worker_count + 1 })

-- A process that ends while it handles the addresses has met one that it refuses.
learn_all-failed :
    (w n : ℕ) (s : Server) (why : Failure)
    → learn_all w n s ≡ failed why
    → (v : ℕ) × (w ≤ v) × (v < w + n) × Refused why (s.srcs v)
unfolding learn_all
learn_all-failed w zero s why h = cc
learn_all-failed w (suc n) s why h = elim (Outcome-cases (learn (s.srcs w) s)) [
  | inl (t, e) ↦
      let (summed, known, same) = learn-ok (s.srcs w) s t e in
      let rest : learn_all (w + 1) n t ≡ failed why = rw e at h in
      let (v, low, high, r) = learn_all-failed (w + 1) n t why rest in
      (v, omega arith, omega arith, rw same at r)
  | inr (f, e) ↦
      let now : failed f ≡ failed why = rw e at h in
      (w, omega arith, omega arith, learn-failed (s.srcs w) s why (e ∙ now))
]

-- When the aggregator ends at a completion of an address, it is the last one awaited, and for
-- data_type some worker has sent a type that is not summed, for divide_by_zero a block size of
-- 0; there is no other reason.
pub handle_address-failed :
    (s : Server) (why : Failure)
    → handle_address s ≡ failed why
    → (s.worker_count + 1 ≡ s.params.num_workers)
      × ((v : ℕ) × (v < s.params.num_workers) × Refused why (s.srcs v))
unfolding handle_address
handle_address-failed s why h = elim (Bool-cases (s.worker_count + 1 == s.params.num_workers)) [
  | inl last ↦ elim (Outcome-cases (learn_all 0 s.params.num_workers s)) [
    | inl (t, e) ↦ absurd (ground arith)
    | inr (f, e) ↦
        let same : f ≡ why = ground arith in
        let (v, low, high, r) = learn_all-failed 0 s.params.num_workers s f e in
        ((==_iff _ _).0 last, (v, omega arith, rw same at r))
  ]
  | inr early ↦ absurd (ground arith)
]
