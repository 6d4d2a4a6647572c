-- ===== src/Buffers.antt =====
-- The buffers that init of omnireduce/context.cpp and of omnireduce/aggcontext.cpp allocates and registers,
-- in bytes. The products are of uint32_t, the last factor is a size_t.
pub mod Inside
pub mod Blocks
use omnireduce.Base.{ℕ, ◌+◌, ◌*◌, ◌/◌, ◌==◌, if◌then◌else◌, u32}
use omnireduce.Params.{Params}

-- comm_buf of a worker, and cuda_comm_buf with direct memory on a GPU.
unfoldable pub worker_buffer_size : Params → ℕ
worker_buffer_size p =
    if p.direct_memory == 0
    then u32
        (p.num_slots_per_thread * (p.message_size * 2) * p.num_worker_threads * p.num_comm_buff)
      * p.buff_unit_size
    else u32 (1024 * 1024 * p.buffer_size)

-- host_tensor and bitmap of a worker on a GPU without direct memory.
unfoldable pub host_tensor_size : Params → ℕ
host_tensor_size p = u32 (1024 * 1024 * p.buffer_size)

unfoldable pub bitmap_size : Params → ℕ
unfolding worker_buffer_size host_tensor_size
bitmap_size p =
    if p.direct_memory == 0
    then host_tensor_size p / p.buff_unit_size
    else worker_buffer_size p / p.buff_unit_size

-- comm_buf of an aggregator.
unfoldable pub aggregator_buffer_size : Params → ℕ
aggregator_buffer_size p =
    (if p.direct_memory == 0
      then u32 (
          p.num_slots_per_thread
            * (p.message_size * 2)
            * p.num_worker_threads
            * (p.num_comm_buff + p.num_workers)
          + p.num_slots_per_thread * p.message_size * p.num_worker_threads * 2)
      else u32 (
          p.num_slots_per_thread
          * p.block_size
          * p.num_worker_threads
          * (p.num_workers + p.num_comm_buff)))
    * p.buff_unit_size
