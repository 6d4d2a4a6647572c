-- ===== src/Connection.antt =====
-- How master and aggmaster of omnireduce/omnireduce.cpp pair the queue pairs of workers and
-- aggregators: `mid` is the peer to which queue pair `i` is connected, `qid` the queue pair there.
pub mod Pairing
use omnireduce.Base.{ℕ, ◌+◌, ◌*◌, ◌/◌, ◌%◌}

-- num_qps_per_thread of a worker is `num_qps * num_aggregators`.
unfoldable pub master_mid : (num_aggregators num_qps i : ℕ) → ℕ
master_mid num_aggregators num_qps i = i % (num_qps * num_aggregators) % num_aggregators

unfoldable pub master_qid : (num_workers num_aggregators num_qps worker_id i : ℕ) → ℕ
master_qid num_workers num_aggregators num_qps worker_id i =
    let tid = i / (num_qps * num_aggregators) in
    i % (num_qps * num_aggregators) / num_aggregators * num_workers
    + worker_id
    + tid * num_workers * num_qps

-- num_qps_per_thread of an aggregator is `num_qps * num_workers`.
unfoldable pub aggmaster_mid : (num_workers num_qps i : ℕ) → ℕ
aggmaster_mid num_workers num_qps i = i % (num_qps * num_workers) % num_workers

unfoldable pub aggmaster_qid : (num_workers num_aggregators num_qps server_id i : ℕ) → ℕ
aggmaster_qid num_workers num_aggregators num_qps server_id i =
    let tid = i / (num_qps * num_workers) in
    i % (num_qps * num_workers) / num_workers * num_aggregators
    + server_id
    + tid * num_aggregators * num_qps
