-- ===== src/Examples/Contexts.antt =====
-- Three threads and a tensor of 10 elements in messages of 4.
use omnireduce.AggContext.{server_starts}
use omnireduce.AggContext.Starts.{server_starts-receive_all}
use omnireduce.Base.{map, ◌≡◌, refl, arith, Option, some, length, negsuc, false}
use omnireduce.Common.{TensorUpdate, TensorUpdateType, OpType}
use omnireduce.Context.{Context, send_tensor}
use omnireduce.Context.Partition.{Parts, receive_all, send_tensor-receive_all}

abbrev tensor : TensorUpdate
tensor = record {
  ptr = 4096;
  count = 10;
  start_idx = 0;
  id = 1;
  root = 0;
  type = TensorUpdateType.int32;
  op = OpType.allreduce;
  bitmap_ptr = 0;
  block_count = 5;
  dev_id = negsuc 0;
  async = false;
  bitmap_async = false;
}

abbrev idle : Context
idle = record {
  num_worker_threads = 3;
  master_ready = 3;
  data_ready = 0;
  results = 0;
  tensor_update = Option.none;
  result_id = 0;
  tid_counter = 1;
}

abbrev handed_out : Context
handed_out = record idle { tensor_update = some tensor; data_ready = 3 }

sent : send_tensor tensor idle ≡ some handed_out
unfolding send_tensor
sent = refl

send_tensor-receive_all_example :
    Parts tensor 4 0 10 (receive_all 4 3 handed_out) × (length (receive_all 4 3 handed_out) ≡ 3)
send_tensor-receive_all_example =
    send_tensor-receive_all 4 3 10 (omega arith) (omega arith) (omega arith) (omega arith)
      (omega arith) tensor idle handed_out refl refl refl sent

server_starts-receive_all_example :
    map (λ (u : TensorUpdate). u.start_idx) (receive_all 4 3 handed_out) ≡ server_starts 10 4 3 3 0
server_starts-receive_all_example =
    server_starts-receive_all 4 3 handed_out tensor (omega arith) refl refl
