-- ===== src/Connection/Pairing.antt =====
-- Both ends of a connection name each other.
use native.Mathlib.Nat.{mod-lt}
use omnireduce.Base.{
  lt-of-mul, ℕ, suc, ◌+◌, ◌*◌, ◌/◌, ◌%◌, ◌<◌, ◌≡◌, refl, arith, div-add_mul, mod-add_mul,
  div-add-mod, mul_mono, mul-pos, dec_lt, div-mul-le,
}
use omnireduce.Connection.{master_mid, master_qid, aggmaster_mid, aggmaster_qid}

-- Thread `t`, row `r` and peer `d` come out of the number that they make up.
digits :
    (t r d n k : ℕ)
    → r < n
    → d < k
    → ((t * (n * k) + (r * k + d)) % (n * k) ≡ r * k + d)
      × ((t * (n * k) + (r * k + d)) / (n * k) ≡ t)
digits t r d n k h h' =
    let inside : r * k + d < n * k = omega (arith, mul_mono (suc r) n k h) in
    (mod-add_mul t (r * k + d) (n * k) inside, div-add_mul t (r * k + d) (n * k) inside)

rebuild :
    (i n k : ℕ)
    → 0 < n * k
    → 0 < k
    → i / (n * k) * (n * k) + (i % (n * k) / k * k + i % (n * k) % k) ≡ i
rebuild i n k h h' = omega (arith, div-add-mod i (n * k) h, div-add-mod (i % (n * k)) k h')

row_lt : (i n k : ℕ) → 0 < n * k → 0 < k → i % (n * k) / k < n
row_lt i n k h h' = elim (dec_lt (i % (n * k) / k) n) [
  | yes lt ↦ lt
  | no above ↦ absurd (
      omega (
        arith,
        mul_mono n (i % (n * k) / k) k (omega arith),
        div-mul-le (i % (n * k)) k h',
        mod-lt i h,
      ))
]

-- For a worker number below the number of workers, and at least one aggregator and one queue
-- pair: the aggregator to which a worker connects queue pair i connects the queue pair named
-- there to that worker, and to queue pair i of it.
pub aggmaster_qid-master_qid :
    (num_workers num_aggregators num_qps worker_id i : ℕ)
    → worker_id < num_workers
    → 0 < num_aggregators
    → 0 < num_qps
    → (aggmaster_mid num_workers num_qps
          (master_qid num_workers num_aggregators num_qps worker_id i)
        ≡ worker_id)
      × (aggmaster_qid num_workers num_aggregators num_qps
            (master_mid num_aggregators num_qps i)
            (master_qid num_workers num_aggregators num_qps worker_id i)
          ≡ i)
unfolding master_mid master_qid aggmaster_mid aggmaster_qid
aggmaster_qid-master_qid nw na nq w i known na_pos nq_pos =
    let all = mul-pos nq na nq_pos na_pos in
    let t = i / (nq * na) in
    let r = i % (nq * na) / na in
    let (low, high) = digits t r w nq nw (row_lt i nq na all na_pos) known in
    let q : r * nw + w + t * nw * nq ≡ t * (nq * nw) + (r * nw + w) = omega arith in
    let whole : r * na + i % (nq * na) % na + t * na * nq ≡ i =
      omega (arith, rebuild i nq na all na_pos) in
    rw (q, low, high, mod-add_mul r w nw known, div-add_mul r w nw known) (refl, whole)

-- The peer and the queue pair there exist.
pub master_mid-lt : (na nq i : ℕ) → 0 < na → master_mid na nq i < na
unfolding master_mid
master_mid-lt na nq i some = mod-lt (i % (nq * na)) some

pub master_qid-lt :
    (nw na nq threads w i : ℕ)
    → w < nw
    → 0 < na
    → 0 < nq
    → i < nq * na * threads
    → master_qid nw na nq w i < nq * nw * threads
unfolding master_qid
master_qid-lt nw na nq threads w i known na_pos nq_pos inside =
    let all = mul-pos nq na nq_pos na_pos in
    let t = i / (nq * na) in
    let r = i % (nq * na) / na in
    let row = mul_mono (suc r) nq nw (row_lt i nq na all na_pos) in
    let below : t * (nq * na) < threads * (nq * na) = omega (arith, div-mul-le i (nq * na) all) in
    let thread : t < threads = lt-of-mul t threads (nq * na) below in
    let rows = mul_mono (suc t) threads (nq * nw) thread in omega (arith, row, rows)

-- The same for an aggregator.
pub aggmaster_mid-lt : (nw nq i : ℕ) → 0 < nw → aggmaster_mid nw nq i < nw
unfolding aggmaster_mid
aggmaster_mid-lt nw nq i some = mod-lt (i % (nq * nw)) some

pub aggmaster_qid-lt :
    (nw na nq threads a i : ℕ)
    → a < na
    → 0 < nw
    → 0 < nq
    → i < nq * nw * threads
    → aggmaster_qid nw na nq a i < nq * na * threads
unfolding aggmaster_qid master_qid
aggmaster_qid-lt nw na nq threads a i = master_qid-lt na nw nq threads a i
