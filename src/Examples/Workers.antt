-- ===== src/Examples/Workers.antt =====
-- Worker 0 of the same round: slot 0, blocks of two elements, of which blocks 0 and 1 are not zero.
use omnireduce.Base.{ℕ, ◌+◌, ◌-◌, ◌≡◌, refl, arith, ltb, if◌then◌else◌}
use omnireduce.Params.{inf_offset_at}
use omnireduce.Common.{TensorUpdateType}
use omnireduce.NextBlock.{Part}
use omnireduce.DrAggregator
use omnireduce.DrAggregator.{recv_addr}
use omnireduce.DrWorker.{Env, remote_addr, global_slot}
use omnireduce.DrWorker.Address.{remote_addr-recv_addr}

-- Five elements, the last block is half full.
abbrev part : Part
part = record {
  start_offset = 0;
  tensor_size = 5;
  block_count = 3;
  bitmap = λ b. if ltb b 2 then 0 else 1;
  block_size = 2;
  num_slots_per_thread = 1;
  message_size = 2;
  num_blocks_per_thread = 1;
  inf_offset = inf_offset_at 2 1;
}

abbrev worker : Env
worker = record {
  part = part;
  thread_id = 0;
  worker_id = 1;
  num_worker_threads = 1;
  num_qps_per_aggregator_per_thread = 1;
  num_aggregators = 1;
  element_size = 4;
  buff_unit_size = 4;
  prepost_recv_num = 1;
  own_qp_num = λ q. q + 10;
  qps = record { qp_num_revert = λ q. q - 10; qp_num_to_peerid = λ q. 0 };
}

abbrev aggregator : DrAggregator.Env
aggregator = record {
  thread_id = 0;
  num_server_threads = 1;
  block_size = 2;
  num_slots_per_thread = 1;
  num_qps_per_aggregator_per_thread = 1;
  num_workers = 2;
  num_comm_buff = 2;
  element_size = 4;
  buff_unit_size = 4;
  inf_offset_0 = inf_offset_at 2 1 0;
  tensor_size = 5;
  typecode = TensorUpdateType.int32;
  qps = record { qp_num_revert = λ q. q - 10; qp_num_to_peerid = λ q. q - 10 };
}

remote_addr-recv_addr_example : remote_addr worker (global_slot worker 0) ≡ recv_addr aggregator 1 0
remote_addr-recv_addr_example =
    remote_addr-recv_addr worker aggregator 0
      (record {
        threads = refl;
        thread = refl;
        slots = refl;
        block = refl;
        block_pos = omega arith;
        unit = refl;
        known = omega arith;
      })
      (record { slot_lt = omega arith; thread_lt = omega arith; room = omega arith })

abbrev wanted : ℕ
wanted = 2

abbrev ready : ℕ
ready = 2
