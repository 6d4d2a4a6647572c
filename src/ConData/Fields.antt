-- ===== src/ConData/Fields.antt =====
-- What a process reads out of the record that its peer has sent.
use omnireduce.Base.{
  ℕ, ◌*◌, ◌^◌, ◌≤◌, ◌<◌, ◌≡◌, refl, sym, arith, true, false, ltb, ◌==◌, if◌then◌else◌,
}
use omnireduce.Params.{Params}
use omnireduce.ConData.{
  max_qps, ByteOrder, RemoteData, Host, master_con_data, aggmaster_con_data, remote_data, sent_qps,
  htonll, ntohll,
}

-- What arpa/inet.h and byteswap.h promise: the conversions of words undo each other.
pub record IsByteOrder (o : ByteOrder) : Type 0 where
  pub word : (x : ℕ) → x < 2 ^ 32 → o.ntohl (o.htonl x) ≡ x
  pub half : (x : ℕ) → x < 2 ^ 16 → o.ntohs (o.htons x) ≡ x
  pub double : (x : ℕ) → x < 2 ^ 64 → o.bswap_64 (o.bswap_64 x) ≡ x

-- The fields of a process fit their types.
pub record IsHost (h : Host) : Type 0 where
  pub buffer : h.comm_buf < 2 ^ 64
  pub key : h.rkey < 2 ^ 32
  pub qps : (i : ℕ) → h.qp i < 2 ^ 32
  pub addresses : (i : ℕ) → h.qp_address i < 2 ^ 32
  pub port : h.lid < 2 ^ 16

-- `r` says of `h` what peer `i` needs, with `n` queue pairs.
pub record Knows (h : Host) (i n : ℕ) (r : RemoteData) : Type 0 where
  pub id : r.remote_id ≡ i
  pub buffer : r.addr ≡ h.comm_buf
  pub key : r.rkey ≡ h.rkey
  pub qps : (j : ℕ) → j < n → r.qp_num j ≡ h.qp j
  pub address : r.qp_num max_qps ≡ h.qp_address i
  pub port : r.lid ≡ h.lid
  pub gid : r.gid ≡ h.my_gid

module _ (o : ByteOrder) (p : Params) (h : Host) (order : IsByteOrder o) (fits : IsHost h) (i : ℕ)
    (was was' : ℕ → ℕ) where
  -- A number that is sent and read back.
  qp_num-sent : (n j : ℕ) → n ≤ max_qps → j < n → o.ntohl (sent_qps o h n i was j) ≡ h.qp j
  unfolding sent_qps
  qp_num-sent n j few low =
      let other : (j == max_qps) ≡ false = ground arith in
      let inside : ltb j n ≡ true = ground arith in
      rw (other, inside) (order.word (h.qp j) (fits.qps j))

  qp_num-read :
      (n k j : ℕ)
      → n ≤ max_qps
      → j < n
      → k ≡ n
      → (if j == max_qps
          then o.ntohl (sent_qps o h k i was j)
          else if ltb j n
          then o.ntohl (sent_qps o h k i was j)
          else was' j)
        ≡ h.qp j
  qp_num-read n k j few low same =
      let other : (j == max_qps) ≡ false = ground arith in
      let inside : ltb j n ≡ true = ground arith in
      rw (other, inside, same) (qp_num-sent n j few low)

  pub remote_data-master_con_data :
      (n : ℕ)
      → n ≡ p.num_qps_per_aggregator_per_thread * p.num_aggregators * p.num_worker_threads
      → n ≤ max_qps
      → Knows h i
          (p.num_qps_per_aggregator_per_thread * p.num_aggregators * p.num_worker_threads)
          (remote_data o n (master_con_data o p h i was) was')
  unfolding remote_data master_con_data ntohll htonll
  remote_data-master_con_data n whole few = record {
    id = refl;
    buffer = order.double h.comm_buf fits.buffer;
    key = order.word h.rkey fits.key;
    qps = λ j low. qp_num-read n _ j few (ground arith) (sym whole);
    address = order.word _ (fits.addresses i);
    port = order.half h.lid fits.port;
    gid = refl;
  }

  pub remote_data-aggmaster_con_data :
      (n : ℕ)
      → n ≡ p.num_qps_per_aggregator_per_thread * p.num_workers * p.num_worker_threads
      → n ≤ max_qps
      → Knows h i
          (p.num_qps_per_aggregator_per_thread * p.num_workers * p.num_worker_threads)
          (remote_data o n (aggmaster_con_data o p h i was) was')
  unfolding remote_data aggmaster_con_data ntohll htonll
  remote_data-aggmaster_con_data n whole few = record {
    id = refl;
    buffer = order.double h.comm_buf fits.buffer;
    key = order.word h.rkey fits.key;
    qps = λ j low. qp_num-read n _ j few (ground arith) (sym whole);
    address = order.word _ (fits.addresses i);
    port = order.half h.lid fits.port;
    gid = refl;
  }
