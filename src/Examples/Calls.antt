-- ===== src/Examples/Calls.antt =====
-- AllReduce on a GPU with direct memory and an adaptive block size, and an aggregator for two workers.
use omnireduce.Base.{
  ℕ, zero, suc, ◌+◌, ◌%◌, ◌*◌, ◌<◌, ◌≡◌, ◌≢◌, refl, arith, inr, List, [], ◌∷◌, pos, get_or, ◌⊎◌,
}
use omnireduce.Outcome.{Failure, Outcome, ok, failed, divide}
use omnireduce.Common.{TensorUpdate, TensorUpdateType}
use omnireduce.Params.{Params, inf_offset_at, num_blocks_per_thread, set_inf_offset}
use omnireduce.Params.Consistent.{IsConsistent}
use omnireduce.AllReduce.{Address, Call, Caller, all_reduce, announce, hand_over, await}
use omnireduce.AllReduce.Sequence.{exchange, size_after, all_reduce-failed}
use omnireduce.AllReduce.Adapted.{all_reduce-IsConsistent}
use omnireduce.AggContext.{
  Server, handle_address, learn, learn_all, set_starts, server_starts, server_count,
}
use omnireduce.AggContext.Learn.{Refused, learn-all_reduce}
use omnireduce.AggContext.Collect.{handle_address-failed}
use omnireduce.AggContext.Rows.{set_starts-slots}

abbrev pub params : Params
params = record {
  buff_unit_size = 4;
  num_worker_threads = 2;
  num_workers = 2;
  num_aggregators = 2;
  num_qps_per_aggregator_per_thread = 1;
  num_slots_per_thread = 2;
  buffer_size = 0;
  chunk_size = 0;
  bitmap_chunk_size = 0;
  message_size = 4;
  block_size = 4;
  num_comm_buff = 2;
  prepost_recv_num = 1;
  inf_offset = inf_offset_at 4 2;
  direct_memory = 1;
  adaptive_blocksize = 1;
  gpu_dev_id = 0;
  tcp_port = 0;
  threshold = 0;
  ib_hca = "";
  ib_port = pos 1;
  gid_idx = pos 2;
  sl = pos 2;
  aggregator_ipaddr = λ i. "";
  worker_ipaddr = λ i. elim i [ zero ↦ "a" | suc j ↦ "b" ];
  worker_cores = λ i. pos 0;
  aggregator_cores = λ i. pos 0;
}

params-IsConsistent : IsConsistent params
unfolding num_blocks_per_thread
params-IsConsistent = record {
  block_pos = omega arith;
  slots_small = omega arith;
  sentinels = refl;
  direct = inr (refl, refl);
}

abbrev caller : Caller
caller = record { params = params; tid_counter = 0; host_tensor = 64; bitmap = 128 }

all_reduce-failed_example :
    ((Failure.gpu_mismatch ≡ Failure.gpu_mismatch) × (caller.params.gpu_dev_id ≢ 1))
    ⊎ ((Failure.gpu_mismatch ≡ Failure.divide_by_zero) × (size_after params ≡ 0))
unfolding all_reduce
all_reduce-failed_example =
    all_reduce-failed TensorUpdateType.float32 4096 10 1 caller Failure.gpu_mismatch refl

-- The call of the first example.
abbrev outcome : Outcome (Caller × List Call) → Caller × List Call
outcome (ok r) = r
outcome (failed why) = (caller, [])

ran :
    all_reduce TensorUpdateType.float32 4096 10 0 caller
    ≡ ok (outcome (all_reduce TensorUpdateType.float32 4096 10 0 caller))
unfolding all_reduce divide set_inf_offset
ran = refl

all_reduce-IsConsistent_example :
    IsConsistent ((outcome (all_reduce TensorUpdateType.float32 4096 10 0 caller)).0).params
all_reduce-IsConsistent_example =
    all_reduce-IsConsistent TensorUpdateType.float32 4096 10 0 caller
      (outcome (all_reduce TensorUpdateType.float32 4096 10 0 caller)).0
      (outcome (all_reduce TensorUpdateType.float32 4096 10 0 caller)).1 ran params-IsConsistent

abbrev address : Address
address = record { count = 10; typecode = TensorUpdateType.int32; block_size = 4 }

abbrev server : Server
server = record {
  params = params;
  srcs = λ w. address;
  worker_count = 0;
  tensor_size = 10;
  typecode = TensorUpdateType.int32;
  element_size = 4;
  current_offset_thread = λ t slot. 0;
}

learn-all_reduce_example :
    (c' : Caller) × (calls : List Call) × (a : Address) × (t : Server) × (all_reduce
        TensorUpdateType.float32 4096 10 0 caller
      ≡ ok (c', calls))
    × ((tu : TensorUpdate) × (exchange calls ≡ announce a ∷ hand_over tu ∷ await tu.id ∷ []))
    × (learn a server ≡ ok t)
    × (t.tensor_size ≡ 10)
    × (t.typecode ≡ TensorUpdateType.float32)
    × (t.params.block_size ≡ c'.params.block_size)
    × (t.params.message_size ≡ c'.params.message_size)
    × (t.params.inf_offset ≡ c'.params.inf_offset)
learn-all_reduce_example =
    learn-all_reduce TensorUpdateType.float32 4096 10 0 caller server params-IsConsistent (inr refl)
      (record { slots = refl; direct = refl; message = refl }) refl refl

-- A worker that sends another type.
abbrev stranger : Server
stranger = record server {
  srcs = λ w. record address { typecode = TensorUpdateType.float16 };
  worker_count = 1;
}

handle_address-failed_example :
    (stranger.worker_count + 1 ≡ stranger.params.num_workers)
    × ((v : ℕ) × (v < 2) × Refused Failure.data_type (stranger.srcs v))
unfolding handle_address learn_all learn
handle_address-failed_example = handle_address-failed stranger Failure.data_type refl

second_start : get_or (server_starts 10 4 2 2 0) 1 0 ≡ 4
unfolding server_starts server_count omnireduce.AggContext.block_share
second_start = refl

set_starts-slots_example :
    (set_starts 2 2 0 server).current_offset_thread 0 ((1 + 1) % 2) ≡ 1 * 4 + 1 * 4
set_starts-slots_example =
    set_starts-slots 2 0 1 1 server (omega arith) second_start (omega arith) (omega arith)
      (omega arith)
