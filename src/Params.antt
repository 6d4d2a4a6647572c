-- ===== src/Params.antt =====
-- omnireduce/params.hpp and omnireduce/params.cpp: class omnireduce_params, and in the children its
-- sentinels and the reading of the configuration. Widths: every ℕ is a uint32_t (`threshold` is the
-- bit pattern of a float); the int parameters are signed; arrays are functions of the index.
pub mod InfOffset
pub mod Consistent
pub mod Parse
use Prim.Native.String.{String}
use omnireduce.Base.{ℕ, ◌+◌, ◌-◌, ◌*◌, ◌/◌, u32, sub32, u32_mod, ℤ, pos}

abbrev pub qpnum_factor : ℕ
qpnum_factor = 8

abbrev pub queue_depth_default : ℕ
queue_depth_default = 4096

pub record Params : Type 0 where
  pub buff_unit_size : ℕ
  pub num_worker_threads : ℕ
  pub num_workers : ℕ
  pub num_aggregators : ℕ
  pub num_qps_per_aggregator_per_thread : ℕ
  pub num_slots_per_thread : ℕ
  pub buffer_size : ℕ
  pub chunk_size : ℕ
  pub bitmap_chunk_size : ℕ
  pub message_size : ℕ
  pub block_size : ℕ
  pub num_comm_buff : ℕ
  pub prepost_recv_num : ℕ
  pub inf_offset : ℕ → ℕ
  pub direct_memory : ℕ
  pub adaptive_blocksize : ℕ
  pub gpu_dev_id : ℕ
  pub tcp_port : ℕ
  pub threshold : ℕ
  pub ib_hca : String
  pub ib_port : ℤ
  pub gid_idx : ℤ
  pub sl : ℤ
  pub aggregator_ipaddr : ℕ → String
  pub worker_ipaddr : ℕ → String
  pub worker_cores : ℕ → ℤ
  pub aggregator_cores : ℕ → ℤ

-- The constructor. The object is global, so what the constructor leaves alone is zero.
unfoldable pub omnireduce_params : Params
omnireduce_params = record {
  buff_unit_size = 4;
  num_worker_threads = 8;
  num_workers = 2;
  num_aggregators = 2;
  num_qps_per_aggregator_per_thread = 1;
  num_slots_per_thread = 0;
  buffer_size = 0;
  chunk_size = 0;
  bitmap_chunk_size = 0;
  message_size = 1024;
  block_size = 256;
  num_comm_buff = 256;
  prepost_recv_num = 0;
  inf_offset = λ i. 0;
  direct_memory = 0;
  adaptive_blocksize = 0;
  gpu_dev_id = 0;
  tcp_port = 0;
  threshold = 0;
  ib_hca = "";
  ib_port = pos 1;
  gid_idx = pos 2;
  sl = pos 2;
  aggregator_ipaddr = λ i. "";
  worker_ipaddr = λ i. "";
  worker_cores = λ i. pos 0;
  aggregator_cores = λ i. pos 0;
}

-- What setInfOffset writes at index `i`.
unfoldable pub inf_offset_at : ℕ → ℕ → ℕ → ℕ
inf_offset_at block_size num_blocks_per_thread i = u32 (
    sub32 ((u32_mod - 1) / block_size / num_blocks_per_thread) 1
      * num_blocks_per_thread
      * block_size
    + i * block_size)

unfoldable pub set_inf_offset : ℕ → Params → Params
set_inf_offset num_blocks_per_thread p = record p {
  inf_offset = inf_offset_at p.block_size num_blocks_per_thread;
}

unfoldable pub set_num_slots_per_thread : Params → Params
set_num_slots_per_thread p = record p {
  num_slots_per_thread =
      u32 (qpnum_factor * p.num_qps_per_aggregator_per_thread * p.num_aggregators);
}

-- getNumSlotsPerTh() * (message_size / block_size), as the workers and the aggregators compute it.
unfoldable pub num_blocks_per_thread : Params → ℕ
num_blocks_per_thread p = u32 (p.num_slots_per_thread * (p.message_size / p.block_size))
