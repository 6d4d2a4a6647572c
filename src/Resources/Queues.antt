-- ===== src/Resources/Queues.antt =====
-- The queue pairs that init creates, and the completion queues that the threads poll.
use omnireduce.Base.{
  ℕ, zero, suc, ◌+◌, ◌*◌, ◌/◌, ◌<◌, ◌≡◌, inl, inr, ap, arith, Option, some, none, Option-cases,
  update, u32, ◌==◌, if◌then◌else◌, ℕ_discrete,
}
use mathlib.Core.Path.{subst}
use omnireduce.Outcome.{Failure, ok, >>=-ok, >>-ok, ok-injective}
use omnireduce.Params.{Params}
use omnireduce.QueuePairs.{insert_peer}
use omnireduce.Resources.{
  Verbs, QueuePairs, Resources, made_all, open_queues, allocate_worker, allocate_aggregator,
  create_qps, create_all_qps, worker_init, aggregator_init,
}

-- No two queue pairs have the same number.
abbrev pub Numbered : Verbs → Type 0
Numbered v = (a b x : ℕ) → v.create_qp a ≡ some x → v.create_qp b ≡ some x → a ≡ b

module _ (v : Verbs) (numbered : Numbered v) (per : ℕ) where
  -- The first `i` queue pairs are there.
  record Made (i : ℕ) (q : QueuePairs) : Type 0 where
    created : (j : ℕ) → j < i → v.create_qp j ≡ some (q.qp_num j)
    queue : (j : ℕ) → j < i → q.cq j ≡ j / per
    found : (j : ℕ) → j < i → q.qp_num_revert (q.qp_num j) ≡ some j
    only : (x k : ℕ) → q.qp_num_revert x ≡ some k → (k < i) × (v.create_qp k ≡ some x)

  abbrev added : ℕ → ℕ → QueuePairs → QueuePairs
  added i num q = record {
    qp_num = update q.qp_num i num;
    cq = update q.cq i (i / per);
    qp_num_revert = insert_peer num i q.qp_num_revert;
  }

  fresh :
      (i num : ℕ) (q : QueuePairs)
      → Made i q
      → v.create_qp i ≡ some num
      → q.qp_num_revert num ≡ none
  fresh i num q m e = elim (Option-cases (q.qp_num_revert num)) [
    | inl none_there ↦ none_there
    | inr (k, there) ↦
        let old = m.only num k there in
        let same = numbered k i num (old.1) e in absurd (omega (arith, same, old.0))
  ]

  insert-at :
      (num i x : ℕ) (m : ℕ → Option ℕ)
      → m num ≡ none
      → insert_peer num i m x ≡ (if x == num then some i else m x)
  unfolding insert_peer
  insert-at num i x m e = rw e

  added-Made :
      (i num : ℕ) (q : QueuePairs)
      → Made i q
      → v.create_qp i ≡ some num
      → Made (i + 1) (added i num q)
  added-Made i num q m e =
      let free = fresh i num q m e in
      record {
        created = λ j h. elim (ℕ_discrete j i) [
          | yes same ↦ ground (arith, e)
          | no other ↦ ground (arith, m.created j)
        ];
        queue = λ j h. elim (ℕ_discrete j i) [
          | yes same ↦ ground arith
          | no other ↦ ground (arith, m.queue j)
        ];
        found = λ j h. elim (ℕ_discrete j i) [
          | yes same ↦ ground (arith, insert-at num i num q.qp_num_revert free)
          | no other ↦ ground (arith, m.found j, insert-at num i (q.qp_num j) q.qp_num_revert free)
        ];
        only = λ x k h. ground (arith, m.only x k, insert-at num i x q.qp_num_revert free);
      }

  create_qps-Made :
      (i n : ℕ) (q r : QueuePairs) → Made i q → create_qps v per i n q ≡ ok r → Made (i + n) r
  unfolding create_qps
  create_qps-Made i zero q r m h = ground (arith, m, ok-injective h)
  create_qps-Made i (suc n) q r m h = elim (Option-cases (v.create_qp i)) [
    | inl failing ↦ let no_result = rw (failing, create_qps) at h in cc
    | inr (num, e) ↦
        let rest =
          create_qps-Made (i + 1) n (added i num q) r (added-Made i num q m e)
            (rw (e, create_qps) at h) in
        let count : i + 1 + n ≡ i + suc n = omega arith in subst (λ k. Made k r) count rest
  ]

-- The tables of a process that has created no queue pair.
abbrev pub IsNew : QueuePairs → Type 0
IsNew q = (x k : ℕ) → q.qp_num_revert x ≡ some k → ⊥

new-Made :
    (v : Verbs) (numbered : Numbered v) (per : ℕ) (q : QueuePairs)
    → IsNew q
    → Made v numbered per 0 q
new-Made v numbered per q new = record {
  created = λ j h. absurd (omega arith);
  queue = λ j h. absurd (omega arith);
  found = λ j h. absurd (omega arith);
  only = λ x k h. absurd (new x k h);
}

-- Of `total` queue pairs each was created for queue `i / per`, and is found by its number.
pub record IsReady (v : Verbs) (per total : ℕ) (q : QueuePairs) : Type 0 where
  pub created : (i : ℕ) → i < total → v.create_qp i ≡ some (q.qp_num i)
  pub queue : (i : ℕ) → i < total → q.cq i ≡ i / per
  pub found : (i : ℕ) → i < total → q.qp_num_revert (q.qp_num i) ≡ some i

abbrev pub ReadyFor : Verbs → Params → (peers : ℕ) → QueuePairs → Type 0
ReadyFor v p peers q =
    let per = u32 (p.num_qps_per_aggregator_per_thread * peers) in
    IsReady v per (u32 (per * p.num_worker_threads)) q

create_all_qps-IsReady :
    (v : Verbs) (p : Params) (peers : ℕ) (before q : QueuePairs)
    → Numbered v
    → IsNew before
    → create_all_qps v p peers before ≡ ok q
    → ReadyFor v p peers q
unfolding create_all_qps
create_all_qps-IsReady v p peers before q numbered new h =
    let per = u32 (p.num_qps_per_aggregator_per_thread * peers) in
    let total = u32 (per * p.num_worker_threads) in
    let first = >>=-ok (create_qps v per 0 total before) _ h in
    let second =
      >>-ok (made_all Failure.create_qp_failed v.create_address_qp 0 peers) (ok (first.0))
        (first.2) in
    let m =
      create_qps-Made v numbered per 0 total before (first.0) (new-Made v numbered per before new)
        (first.1) in
    let same : first.0 ≡ q = ok-injective second in
    let count : 0 + total ≡ total = omega arith in
    let made : Made v numbered per total q =
      subst (λ k. Made v numbered per k q) count
        (subst (λ r. Made v numbered per (0 + total) r) same m) in
    record { created = made.created; queue = made.queue; found = made.found }

pub worker_init-IsReady :
    (v : Verbs) (p : Params) (before : QueuePairs) (r : Resources)
    → Numbered v
    → IsNew before
    → worker_init v p before ≡ ok r
    → ReadyFor v p p.num_aggregators r.qps
unfolding worker_init
worker_init-IsReady v p before r numbered new h =
    let opened = >>-ok (open_queues v p) _ h in
    let allocated = >>-ok (allocate_worker v p) _ opened in
    let created = >>=-ok (create_all_qps v p p.num_aggregators before) _ allocated in
    let same = ap (λ (x : Resources). x.qps) (ok-injective (created.2)) in
    subst (λ q. ReadyFor v p p.num_aggregators q) same
      (create_all_qps-IsReady v p p.num_aggregators before (created.0) numbered new (created.1))

pub aggregator_init-IsReady :
    (v : Verbs) (p : Params) (before : QueuePairs) (r : Resources)
    → Numbered v
    → IsNew before
    → aggregator_init v p before ≡ ok r
    → ReadyFor v p p.num_workers r.qps
unfolding aggregator_init
aggregator_init-IsReady v p before r numbered new h =
    let opened = >>-ok (open_queues v p) _ h in
    let allocated = >>-ok (allocate_aggregator v p) _ opened in
    let created = >>=-ok (create_all_qps v p p.num_workers before) _ allocated in
    let same = ap (λ (x : Resources). x.qps) (ok-injective (created.2)) in
    subst (λ q. ReadyFor v p p.num_workers q) same
      (create_all_qps-IsReady v p p.num_workers before (created.0) numbered new (created.1))
