-- ===== src/ConData.antt =====
-- The records of omnireduce/common.hpp that master and aggmaster of omnireduce/omnireduce.cpp exchange
-- over TCP, and the loop of the exchange.
pub mod Fields
pub mod Peers
pub mod Agreement
use omnireduce.Base.{
  ℕ, zero, suc, ◌+◌, ◌*◌, Bool, true, false, not, ◌&&◌, ℤ, pos, negsuc, ltb, ◌==◌, if◌then◌else◌,
  update,
}
use omnireduce.Outcome.{Failure, Outcome, ok, failed}
use omnireduce.Params.{Params}

-- MAX_NUM_AGGS*MAX_NUM_QPS*MAX_NUM_THREADS, where the queue pair for addresses stands.
abbrev pub max_qps : ℕ
max_qps = 8 * 2 * 8

-- struct cm_con_data_t, in network byte order, and struct remote_con_data_t.
pub record ConData : Type 0 where
  pub remote_id : ℕ
  pub num_peers : ℕ
  pub addr : ℕ
  pub rkey : ℕ
  pub qp_num : ℕ → ℕ
  pub lid : ℕ
  pub gid : ℕ → ℕ

pub record RemoteData : Type 0 where
  pub remote_id : ℕ
  pub addr : ℕ
  pub rkey : ℕ
  pub qp_num : ℕ → ℕ
  pub lid : ℕ
  pub gid : ℕ → ℕ

-- The conversions of arpa/inet.h and byteswap.h.
pub record ByteOrder : Type 0 where
  pub htonl : ℕ → ℕ
  pub ntohl : ℕ → ℕ
  pub htons : ℕ → ℕ
  pub ntohs : ℕ → ℕ
  pub bswap_64 : ℕ → ℕ

-- On a little-endian machine.
unfoldable pub htonll : ByteOrder → ℕ → ℕ
htonll o x = o.bswap_64 x

unfoldable pub ntohll : ByteOrder → ℕ → ℕ
ntohll o x = o.bswap_64 x

-- What a process has set up before: its buffer, its queue pairs and its port; my_gid is what
-- ibv_query_gid gave, or zeros.
pub record Host : Type 0 where
  pub comm_buf : ℕ
  pub rkey : ℕ
  pub qp : ℕ → ℕ
  pub qp_address : ℕ → ℕ
  pub lid : ℕ
  pub my_gid : ℕ → ℕ

-- The numbers of `n` queue pairs, and the rest of the array as it was.
unfoldable pub sent_qps : ByteOrder → Host → (n i : ℕ) → (ℕ → ℕ) → ℕ → ℕ
sent_qps o h n i was j =
    if j == max_qps then o.htonl (h.qp_address i) else if ltb j n then o.htonl (h.qp j) else was j

-- local_con_datas[i] of a worker, for aggregator `i`; without CUDA there is one buffer.
unfoldable pub master_con_data : ByteOrder → Params → Host → ℕ → (ℕ → ℕ) → ConData
unfolding htonll sent_qps
master_con_data o p h i was = record {
  remote_id = i;
  num_peers = p.num_aggregators;
  addr = htonll o h.comm_buf;
  rkey = o.htonl h.rkey;
  qp_num =
      sent_qps o h (p.num_qps_per_aggregator_per_thread * p.num_aggregators * p.num_worker_threads)
        i was;
  lid = o.htons h.lid;
  gid = h.my_gid;
}

-- local_con_datas[i] of an aggregator, for worker `i`.
unfoldable pub aggmaster_con_data : ByteOrder → Params → Host → ℕ → (ℕ → ℕ) → ConData
unfolding htonll sent_qps
aggmaster_con_data o p h i was = record {
  remote_id = i;
  num_peers = p.num_workers;
  addr = htonll o h.comm_buf;
  rkey = o.htonl h.rkey;
  qp_num =
      sent_qps o h (p.num_qps_per_aggregator_per_thread * p.num_workers * p.num_worker_threads) i
        was;
  lid = o.htons h.lid;
  gid = h.my_gid;
}

-- remote_props_array[i], of which the first `n` numbers of queue pairs are written, and the last.
unfoldable pub remote_data : ByteOrder → ℕ → ConData → (ℕ → ℕ) → RemoteData
unfolding ntohll
remote_data o n d was = record {
  remote_id = d.remote_id;
  addr = ntohll o d.addr;
  rkey = o.ntohl d.rkey;
  qp_num = λ j.
      if j == max_qps
      then o.ntohl (d.qp_num j)
      else if ltb j n
      then o.ntohl (d.qp_num j)
      else was j;
  lid = o.ntohs d.lid;
  gid = d.gid;
}

abbrev pub is_zero : ℤ → Bool
is_zero (pos zero) = true
is_zero (pos (suc n)) = false
is_zero (negsuc n) = false

abbrev pub is_negative : ℤ → Bool
is_negative (pos n) = false
is_negative (negsuc n) = true

-- The exchange with peers `i` to `i + n - 1`: what sock_sync_data returns for each and what tmp_con_data
-- holds then. `id` is workerId or serverId.
unfoldable pub exchange :
    (sync : ℕ → ℤ × ConData) (num_peers : ℕ) (take : ℕ → ConData → RemoteData) (i n id : ℕ)
    → (ℕ → RemoteData)
    → Outcome (ℕ × (ℕ → RemoteData))
exchange sync num_peers take i zero id props = ok (id, props)
exchange sync num_peers take i (suc n) id props =
    let rc = (sync i).0 in
    let d = (sync i).1 in
    let same = id == d.remote_id && num_peers == d.num_peers in
    let rest =
      exchange sync num_peers take (i + 1) n (if i == 0 then d.remote_id else id)
        (update props i (take i d)) in
    if is_negative rc
    then failed Failure.exchange_failed
    else if not (i == 0) && not same
    then failed Failure.machine_id
    else rest
