-- ===== src/Examples/Rounds.antt =====
-- Two workers, one slot of one thread, blocks of two elements.
use omnireduce.Base.{
  ℕ, ◌+◌, ◌-◌, ◌*◌, ◌≤◌, ◌<◌, ◌≡◌, length, map, get_elem?, refl, ap, ◌∙◌, arith, List, [], ◌∷◌,
  some, ◌==◌, if◌then◌else◌, u32, copy_words, copy_words-inside, copy_words-Outside,
}
use omnireduce.Common.{TensorUpdateType}
use omnireduce.Verbs.{Request, SendRequest, element_add}
use omnireduce.DrAggregator
use omnireduce.DrAggregator.{Env, State, slot_of, least_offset}
use mathlib.Core.Logic.{◌↔◌}
use omnireduce.DrAggregator.Layout.{Fits}
use omnireduce.DrAggregator.Posted.{
  sends, receives, IsIn, IsAscending, receive_from, IsAnswer, IsRegistered, complete-answers,
}
use omnireduce.DrAggregator.Sum.{Message, Sends, Nic, run_round, Answered}
use omnireduce.DrAggregator.Sum.Answer.{round-Answered}

abbrev aggregator : Env
aggregator = record {
  thread_id = 0;
  num_server_threads = 1;
  block_size = 2;
  num_slots_per_thread = 1;
  num_qps_per_aggregator_per_thread = 1;
  num_workers = 2;
  num_comm_buff = 2;
  element_size = 4;
  buff_unit_size = 4;
  inf_offset_0 = 1000;
  tensor_size = 4;
  typecode = TensorUpdateType.int32;
  qps = record { qp_num_revert = λ q. q - 10; qp_num_to_peerid = λ q. q - 10 };
}

aggregator-Fits : Fits aggregator 0
aggregator-Fits = record { slot_lt = omega arith; thread_lt = omega arith; room = omega arith }

pub from_start : (j : ℕ) → 0 + 4 * j ≡ 4 * j
from_start j = omega arith

-- RDMA as a copy.
abbrev pub copying : Nic
copying = record {
  write = λ n dst payload m. copy_words n dst 0 payload m;
  write-inside =
      λ n dst payload m j h. copy_words-inside n dst 0 payload m j h ∙ ap payload (from_start j);
  write-outside = λ n dst payload m x out. copy_words-Outside n dst 0 payload m x out;
}

abbrev fresh : State
fresh = record {
  block_next_offset = λ s w. 0;
  min_next_offset = λ s. 0;
  slot_to_qps = λ s w. 0;
  register_count = λ s. 0;
  set = λ s. 0;
  current_offset = λ s. 0;
  comm_buf = λ a. 0;
}

-- Worker 1 comes first; worker 0 goes on at offset 2, worker 1 at offset 1000.
abbrev second : Message
second = record { qp_num = 11; next_offset = 1000; block = λ a. 7 }

abbrev first : Message
first = record { qp_num = 10; next_offset = 2; block = λ a. 5 }

round-Sends : Sends aggregator 0 (λ w. 0) 0 (second ∷ first ∷ [])
unfolding slot_of
round-Sends =
    (refl, omega arith, omega arith, (refl, omega arith, omega arith, (λ w lt. ground arith)))

round-Answered_example :
    (s' : State) × (out : List Request) × (run_round copying
        (λ a b. 0)
        aggregator
        0
        (second ∷ first ∷ [])
        fresh
      ≡ some (s', out))
    × Answered (λ a b. u32 (a + b)) aggregator 0 (second ∷ first ∷ []) fresh s' out
round-Answered_example =
    round-Answered copying (λ a b. 0) (λ a b. u32 (a + b)) aggregator 0 aggregator-Fits
      (unfold element_add in refl) (omega arith) (omega arith) second (first ∷ []) fresh
      (omega arith) round-Sends

-- Both workers have answered; worker 0 is the one that goes on.
abbrev complete : State
complete = record fresh {
  block_next_offset = λ s w. if w == 0 then 2 else 1000;
  min_next_offset = λ s. 2;
  slot_to_qps = λ s w. w + 10;
  register_count = λ s. 2;
}

complete-IsRegistered : IsRegistered aggregator 0 complete
complete-IsRegistered = record { known = λ w h. omega arith; peer = λ w h. omega arith }

complete-answers_example :
    (length (sends (DrAggregator.complete aggregator 0 complete).1) ≡ 2)
    × ((w : ℕ)
        → w < 2
        → (r : SendRequest) × (get_elem? (sends (DrAggregator.complete aggregator 0 complete).1) w
            ≡ some (Request.send r))
          × IsAnswer aggregator 0 complete w r)
    × ((ws : List ℕ) × (receives (DrAggregator.complete aggregator 0 complete).1
          ≡ map (receive_from aggregator 0 complete) ws)
        × IsAscending 0 ws
        × ((w : ℕ)
            → IsIn w ws ↔ (
                (w < 2)
                × ((v : ℕ)
                    → v < 2
                    → complete.block_next_offset 0 w ≤ complete.block_next_offset 0 v))))
complete-answers_example =
    complete-answers aggregator 0 aggregator-Fits refl (omega arith) (omega arith) complete
      (omega arith) complete-IsRegistered (unfold least_offset in refl)
