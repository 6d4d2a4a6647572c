-- ===== src/Examples/Buffered.antt =====
-- The buffers of the configuration of Examples/Calls.
use omnireduce.Base.{◌+◌, ◌*◌, ◌≤◌, refl, arith}
use omnireduce.Common.{TensorUpdateType}
use omnireduce.DrAggregator
use omnireduce.Params.{Params}
use omnireduce.Aggregator
use omnireduce.Buffers.{aggregator_buffer_size}
use omnireduce.Buffers.Blocks.{IsAggregator, recv_addr-send_buff-pool_addr-inside}
use omnireduce.Buffers.Inside.{IsDirect, recv_addr-pool_addr-inside}
use omnireduce.Examples.Calls.{params}
use omnireduce.Examples.Summed.{aggregator, aggregator-Fits}

abbrev server : DrAggregator.Env
server = record {
  thread_id = 1;
  num_server_threads = 2;
  block_size = 4;
  num_slots_per_thread = 2;
  num_qps_per_aggregator_per_thread = 1;
  num_workers = 2;
  num_comm_buff = 2;
  element_size = 4;
  buff_unit_size = 4;
  inf_offset_0 = 1000;
  tensor_size = 8;
  typecode = TensorUpdateType.int32;
  qps = record { qp_num_revert = λ q. q; qp_num_to_peerid = λ q. q };
}

server-IsDirect : IsDirect params server
server-IsDirect = record {
  direct = omega arith;
  unit = refl;
  threads = refl;
  slots = refl;
  workers = refl;
  pools = refl;
  block = omega arith;
  room = omega arith;
}

recv_addr-pool_addr-inside_example :
    (DrAggregator.recv_addr server 1 1 + 4 * 4 ≤ aggregator_buffer_size params)
    × (DrAggregator.pool_addr server 1 1 + 4 * 4 ≤ aggregator_buffer_size params)
recv_addr-pool_addr-inside_example =
    recv_addr-pool_addr-inside params server 1 server-IsDirect (omega arith) (omega arith) 1 1
      (omega arith) (omega arith)

-- The configuration of the aggregator of Examples/Summed.
abbrev summing : Params
summing = record params {
  direct_memory = 0;
  num_worker_threads = 1;
  num_slots_per_thread = 1;
  num_workers = 2;
  num_comm_buff = 2;
  message_size = 4;
}

summing-IsAggregator : IsAggregator summing aggregator
summing-IsAggregator = record {
  direct = refl;
  unit = refl;
  threads = refl;
  slots = refl;
  workers = refl;
  buffers = refl;
  message = refl;
}

recv_addr-send_buff-pool_addr-inside_example :
    (Aggregator.recv_addr aggregator 0 1 + 4 * (2 * 2 + 2) ≤ aggregator_buffer_size summing)
    × (Aggregator.send_buff aggregator (Aggregator.global_slot aggregator 0) 1 + 4 * (2 * 2 + 2)
        ≤ aggregator_buffer_size summing)
    × (Aggregator.pool_addr aggregator 1 (Aggregator.block_index aggregator 6) + 4 * 2
        ≤ aggregator_buffer_size summing)
recv_addr-send_buff-pool_addr-inside_example =
    recv_addr-send_buff-pool_addr-inside 2 summing aggregator aggregator-Fits summing-IsAggregator 0
      1 1 2 1 6 (omega arith) (omega arith) (omega arith) (omega arith) (omega arith)
