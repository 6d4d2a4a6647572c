-- ===== src/AggContext/Starts.antt =====
-- The aggregator's threads and the workers' threads split a tensor alike.
use omnireduce.Base.{ℕ, zero, suc, ◌+◌, ◌^◌, ◌<◌, ◌≡◌, refl, ap, arith, true, map, some, ◌==◌, u32}
use omnireduce.Common.{TensorUpdate}
use omnireduce.Context.{Context, receive_tensor, thread_count, thread_share, message_count}
use omnireduce.Context.Partition.{receive_all, receive_all-zero, receive_all-suc}
use omnireduce.AggContext.{block_share, server_count, server_starts}

server_count-thread_count :
    (ms t : ℕ) (c : Context) (tu : TensorUpdate)
    → c.data_ready ≡ suc t
    → server_count tu.count ms c.num_worker_threads t tu.start_idx ≡ thread_count ms c t tu
unfolding server_count block_share thread_count thread_share message_count
server_count-thread_count ms zero c tu d = ground arith
server_count-thread_count ms (suc t) c tu d = ground arith

receive_tensor-some :
    (ms t : ℕ) (c : Context) (tu : TensorUpdate)
    → t + 1 < 2 ^ 32
    → c.data_ready ≡ suc t
    → c.tensor_update ≡ some tu
    → receive_tensor ms t c ≡ (
      record c {
        tensor_update =
            some (record tu { start_idx = u32 (tu.start_idx + thread_count ms c t tu) });
        data_ready = t;
      },
      some (record tu { count = thread_count ms c t tu }),
    )
unfolding receive_tensor
receive_tensor-some ms t c tu small d held =
    let mine : (suc t == u32 (t + 1)) ≡ true = ground arith in ground arith

-- With fewer than 2^32 threads and blocks for messages: from a context that holds a tensor for
-- the threads below t, the start offsets of the aggregator's threads are those of the parts that
-- the worker threads take.
pub server_starts-receive_all :
    (ms t : ℕ) (c : Context) (tu : TensorUpdate)
    → t < 2 ^ 32
    → c.data_ready ≡ t
    → c.tensor_update ≡ some tu
    → map (λ (u : TensorUpdate). u.start_idx) (receive_all ms t c)
      ≡ server_starts tu.count ms c.num_worker_threads t tu.start_idx
unfolding server_starts
server_starts-receive_all ms zero c tu small d held =
    ap (map (λ (u : TensorUpdate). u.start_idx)) (receive_all-zero ms c)
server_starts-receive_all ms (suc t) c tu small d held =
    let same = server_count-thread_count ms t c tu d in
    let step = receive_tensor-some ms t c tu (omega arith) d held in
    let rest =
      server_starts-receive_all ms t
        (record c {
          tensor_update =
              some (record tu { start_idx = u32 (tu.start_idx + thread_count ms c t tu) });
          data_ready = t;
        })
        (record tu { start_idx = u32 (tu.start_idx + thread_count ms c t tu) }) (omega arith) refl
        refl in
    rw (receive_all-suc ms t c _ _ step, rest, same) refl
