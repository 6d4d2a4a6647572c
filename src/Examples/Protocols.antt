-- ===== src/Examples/Protocols.antt =====
-- One thread, one AllReduce of 10 elements, up to the result.
use omnireduce.Base.{ℕ, ◌*◌, ◌≤◌, ◌<◌, ◌≡◌, refl, arith, true, false, some, none, update, negsuc}
use omnireduce.Common.{TensorUpdate, TensorUpdateType, OpType}
use omnireduce.Context.{Context, send_tensor, receive_tensor, send_result, receive_result}
use omnireduce.Context.Protocol.{
  Client, System, Step, send, take, give, Reachable, here, after, IsQuiet,
}
use omnireduce.Context.Protocol.Progress.{waiting-Step}
use omnireduce.Context.Protocol.Bounded.{next, still, Waits-le}
use omnireduce.Context.Protocol.Invariant.{IsBalanced, Reachable-IsBalanced, receive_result-all}

abbrev tensor : TensorUpdate
tensor = record {
  ptr = 4096;
  count = 10;
  start_idx = 0;
  id = 1;
  root = 0;
  type = TensorUpdateType.int32;
  op = OpType.allreduce;
  bitmap_ptr = 0;
  block_count = 5;
  dev_id = negsuc 0;
  async = false;
  bitmap_async = false;
}

abbrev context : Context
context = record {
  num_worker_threads = 1;
  master_ready = 1;
  data_ready = 0;
  results = 0;
  tensor_update = none;
  result_id = 0;
  tid_counter = 1;
}

abbrev sent : Context
sent = record context { tensor_update = some tensor; data_ready = 1 }

abbrev taken : Context
taken = record sent { tensor_update = some (record tensor { start_idx = 10 }); data_ready = 0 }

abbrev given : Context
given = record taken { results = 1; result_id = 1 }

abbrev returned : Context
returned = record given { results = 0; result_id = 0 }

sends : send_tensor tensor context ≡ some sent
unfolding send_tensor
sends = refl

takes : receive_tensor 4 0 sent ≡ (taken, some tensor)
unfolding receive_tensor omnireduce.Context.thread_count
takes = refl

gives : send_result 1 taken ≡ (given, true)
unfolding send_result
gives = refl

returns : receive_result 1 given ≡ some returned
unfolding receive_result
returns = refl

abbrev quiet : System
quiet = record { context = context; busy = λ t. false; client = Client.idle }

quiet-IsQuiet : IsQuiet 1 quiet
quiet-IsQuiet = (refl, refl, refl, refl, (λ t. refl), refl)

abbrev waiting_sent : System
waiting_sent = record { context = sent; busy = λ t. false; client = Client.waiting 1 }

abbrev waiting_taken : System
waiting_taken = record {
  context = taken;
  busy = update (λ t. false) 0 true;
  client = Client.waiting 1;
}

abbrev waiting_given : System
waiting_given = record {
  context = given;
  busy = update (update (λ t. false) 0 true) 0 false;
  client = Client.waiting 1;
}

run : Reachable 4 1 quiet waiting_given
run =
    after waiting_taken waiting_given
      (after waiting_sent waiting_taken
        (after quiet waiting_sent here (send tensor sent refl (omega arith) sends))
        (take 0 tensor taken (omega arith) refl takes))
      (give 0 1 given (omega arith) refl gives)

Reachable-IsBalanced_example : IsBalanced 1 waiting_given
Reachable-IsBalanced_example =
    Reachable-IsBalanced 4 1 (omega arith) (omega arith) quiet waiting_given quiet-IsQuiet run

receive_result-all_example :
    (given.results ≡ 1) × (given.data_ready ≡ 0) × ((t : ℕ) → t < 1 → waiting_given.busy t ≡ false)
receive_result-all_example =
    receive_result-all 4 1 (omega arith) (omega arith) quiet waiting_given 1 returned quiet-IsQuiet
      run refl returns

-- After send_tensor thread 0 takes its part, and receive_result comes at the latest after one more.
at_sent : Reachable 4 1 quiet waiting_sent
at_sent = after quiet waiting_sent here (send tensor sent refl (omega arith) sends)

waiting-Step_example : (s' : System) × Step 4 1 waiting_sent s'
waiting-Step_example =
    waiting-Step 4 1 (omega arith) (omega arith) quiet waiting_sent 1 quiet-IsQuiet at_sent refl

Waits-le_example : 1 ≤ 2 * 1
Waits-le_example =
    Waits-le 4 1 (omega arith) (omega arith) quiet waiting_sent waiting_taken 1 1 quiet-IsQuiet
      at_sent refl
      (next 0 waiting_sent waiting_taken still (take 0 tensor taken (omega arith) refl takes)
        (λ h. cc))
