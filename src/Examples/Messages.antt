-- ===== src/Examples/Messages.antt =====
-- A worker and an aggregator with two slots of one thread, and messages of two blocks of two elements.
use omnireduce.Base.{ℕ, ◌+◌, ◌-◌, ◌*◌, ◌≤◌, ◌≡◌, refl, arith}
use omnireduce.Params.{Params, inf_offset_at}
use omnireduce.Buffers.{worker_buffer_size}
use omnireduce.Buffers.Inside.{IsWorker, message_addr-inside}
use omnireduce.Examples.Calls.{params}
use omnireduce.Verbs.{QpTable}
use omnireduce.NextBlock.{Part}
use omnireduce.Worker.{Env, remote_addr, message_addr, answer_addr}
use omnireduce.Worker.Address.{SameConfig, remote_addr_both}
use omnireduce.Aggregator
use omnireduce.Aggregator.{
  recv_addr, global_slot, block_index, blocks_per_message, clear_shadow, pool_addr, initial_state,
}

abbrev table : QpTable
table = record { qp_num_revert = λ q. q - 10; qp_num_to_peerid = λ q. 0 }

-- Five elements: one message and a part of a second one.
abbrev part : Part
part = record {
  start_offset = 0;
  tensor_size = 5;
  block_count = 3;
  bitmap = λ b. 0;
  block_size = 2;
  num_slots_per_thread = 2;
  message_size = 4;
  num_blocks_per_thread = 4;
  inf_offset = inf_offset_at 2 4;
}

abbrev pub worker : Env
worker = record {
  part = part;
  thread_id = 0;
  worker_id = 1;
  num_worker_threads = 1;
  num_qps_per_aggregator_per_thread = 1;
  num_aggregators = 1;
  num_comm_buff = 256;
  element_size = 4;
  buff_unit_size = 4;
  prepost_recv_num = 1;
  typecode = 1;
  own_qp_num = λ q. q + 10;
  qps = table;
}

abbrev pub aggregator : Aggregator.Env
aggregator = record {
  thread_id = 0;
  num_server_threads = 1;
  block_size = 2;
  message_size = 4;
  num_slots_per_thread = 2;
  num_qps_per_aggregator_per_thread = 1;
  num_workers = 2;
  num_comm_buff = 256;
  element_size = 4;
  buff_unit_size = 4;
  inf_offset_0 = inf_offset_at 2 4 0;
  qps = table;
}

same : SameConfig worker aggregator
same = record { threads = refl; thread = refl; slots = refl; message = refl; unit = refl }

remote_addr_both_example :
    (remote_addr worker (global_slot aggregator 1) ≡ recv_addr aggregator 1 1)
    × ((buff_index : ℕ)
        → Aggregator.remote_addr aggregator (global_slot aggregator 1) buff_index
          ≡ answer_addr worker 1 buff_index)
remote_addr_both_example = remote_addr_both worker aggregator 1 same (omega arith)

-- Its configuration, and a message of two blocks for slot 1 in the last place of the buffer.
abbrev configuration : Params
configuration = record params { direct_memory = 0; num_worker_threads = 1; num_comm_buff = 256 }

worker-IsWorker : IsWorker configuration worker 2
worker-IsWorker = record {
  direct = refl;
  unit = (refl, refl);
  threads = refl;
  slots = refl;
  message = refl;
  block_pos = omega arith;
  blocks = omega arith;
  room = omega arith;
}

message_addr-inside_example :
    message_addr worker 1 255 + 4 * (2 * 2 + 2) ≤ worker_buffer_size configuration
message_addr-inside_example =
    message_addr-inside configuration worker 1 255 2 worker-IsWorker (omega arith) (omega arith)
