-- ===== src/Examples/Created.antt =====
-- The resources of a worker and of an aggregator with two threads and one queue pair for each.
use omnireduce.Base.{◌+◌, ◌*◌, ◌≡◌, refl, arith, true, [], ◌∷◌, some, none, pos, update}
use omnireduce.Outcome.{ok}
use omnireduce.Params.{Params}
use omnireduce.QueuePairs.{insert_peer}
use omnireduce.Buffers.{worker_buffer_size, aggregator_buffer_size}
use omnireduce.Worker
use omnireduce.Aggregator
use omnireduce.Resources.{
  Verbs, QueuePairs, Resources, made_all, has_device, search_device, find_device, open_queues,
  create_qps, create_all_qps, allocate_worker, worker_init, allocate_aggregator, aggregator_init,
}
use omnireduce.Resources.Queues.{Numbered, IsNew}
use omnireduce.Resources.Completion.{HasRoom, worker_init-slot_qid, aggregator_init-receive_qid}
use omnireduce.Examples.Calls.{params}
use omnireduce.Examples.Messages.{worker}
use omnireduce.Examples.Summed.{aggregator}

abbrev small : Params
small = record params {
  num_worker_threads = 2;
  num_workers = 1;
  num_aggregators = 1;
  direct_memory = 0;
  ib_hca = "mlx5_0";
}

-- Every call succeeds, and the queue pairs are numbered from 20 on.
abbrev verbs : Verbs
verbs = record {
  device_list = some ("mlx4_0" ∷ "mlx5_0" ∷ []);
  open_device = true;
  query_port = pos 0;
  alloc_pd = true;
  create_cq = λ i. true;
  memalign = pos 0;
  reg_buffer = true;
  reg_address = λ i. true;
  create_qp = λ i. some (20 + i);
  create_address_qp = λ i. true;
}

abbrev none_yet : QueuePairs
none_yet = record { qp_num = λ i. 0; cq = λ i. 0; qp_num_revert = λ x. none }

abbrev two : QueuePairs
two = record {
  qp_num = update (update (λ i. 0) 0 20) 1 21;
  cq = update (update (λ i. 0) 0 0) 1 1;
  qp_num_revert = insert_peer 21 1 (insert_peer 20 0 (λ x. none));
}

verbs-Numbered : Numbered verbs
verbs-Numbered a b x h h' = ground arith

none_yet-IsNew : IsNew none_yet
none_yet-IsNew x k h = cc

abbrev of_worker : Resources
of_worker = record { num_threads = 2; buffer_size = worker_buffer_size small; qps = two }

abbrev of_aggregator : Resources
of_aggregator = record { num_threads = 2; buffer_size = aggregator_buffer_size small; qps = two }

small-HasRoom : HasRoom small 1
small-HasRoom = record { qps_pos = omega arith; peers_pos = omega arith; room = omega arith }

worker_init-two : worker_init verbs small none_yet ≡ ok of_worker
unfolding made_all has_device search_device find_device open_queues create_qps create_all_qps
    allocate_worker worker_init
worker_init-two = refl

aggregator_init-two : aggregator_init verbs small none_yet ≡ ok of_aggregator
unfolding made_all has_device search_device find_device open_queues create_qps create_all_qps
    allocate_aggregator aggregator_init
aggregator_init-two = refl

abbrev second_worker : Worker.Env
second_worker = record worker { thread_id = 1; num_worker_threads = 2 }

abbrev second_aggregator : Aggregator.Env
second_aggregator = record aggregator { thread_id = 1; num_server_threads = 2; num_workers = 1 }

worker_init-slot_qid_example :
    (of_worker.qps.cq (Worker.slot_qid second_worker (1 + 2 * 1)) ≡ 1)
    × (of_worker.qps.qp_num_revert
          (of_worker.qps.qp_num (Worker.slot_qid second_worker (1 + 2 * 1)))
        ≡ some (Worker.slot_qid second_worker (1 + 2 * 1)))
worker_init-slot_qid_example =
    worker_init-slot_qid verbs small none_yet of_worker second_worker verbs-Numbered none_yet-IsNew
      small-HasRoom
      (record { slots = refl; qps = refl; aggregators = refl; thread_lt = omega arith })
      worker_init-two 1 (omega arith)

aggregator_init-receive_qid_example :
    (of_aggregator.qps.cq (Aggregator.receive_qid second_aggregator 0 0) ≡ 1)
    × (of_aggregator.qps.qp_num_revert
          (of_aggregator.qps.qp_num (Aggregator.receive_qid second_aggregator 0 0))
        ≡ some (Aggregator.receive_qid second_aggregator 0 0))
aggregator_init-receive_qid_example =
    aggregator_init-receive_qid verbs small none_yet of_aggregator second_aggregator verbs-Numbered
      none_yet-IsNew small-HasRoom (record { qps = refl; workers = refl; thread_lt = omega arith })
      aggregator_init-two 0
