-- ===== src/Examples/Summed.antt =====
-- A round of one slot without direct memory: two workers, and messages of two blocks of two elements.
use omnireduce.Base.{
  ℕ, ◌+◌, ◌-◌, ◌*◌, ◌/◌, ltb, if◌then◌else◌, ◌≤◌, ◌≡◌, refl, arith, List, [], ◌∷◌, some, u32,
  loop_over, add_words, copy_words,
}
use omnireduce.Verbs.{Request, element_add}
use omnireduce.Wire.{imm_data, imm_typecode, imm_num, imm_slot}
use omnireduce.Aggregator.{
  Env, State, initial_state, register, receive_blocks, receive_block, record_offset, note_complete,
  accumulate, least_offset, slot_complete, blocks_per_message, blocks_per_thread, block_index,
  meta_addr, recv_addr, pool_addr, pool_base, code_add,
}
use omnireduce.Aggregator.Layout.{Fits}
use omnireduce.Aggregator.Round.{
  Message, IsFor, Sends, IsSummed, receive, run_round, run_round-IsSummed,
}
use omnireduce.Examples.Rounds.{copying}

abbrev pub aggregator : Env
aggregator = record {
  thread_id = 0;
  num_server_threads = 1;
  block_size = 2;
  message_size = 4;
  num_slots_per_thread = 1;
  num_qps_per_aggregator_per_thread = 1;
  num_workers = 2;
  num_comm_buff = 2;
  element_size = 4;
  buff_unit_size = 4;
  inf_offset_0 = 1000;
  qps = record { qp_num_revert = λ q. q - 10; qp_num_to_peerid = λ q. q - 10 };
}

pub aggregator-Fits : Fits 2 aggregator
aggregator-Fits = record {
  block_pos = omega arith;
  message_pos = omega arith;
  slots_pos = omega arith;
  message = refl;
  element = refl;
  unit = refl;
  thread_lt = omega arith;
  room = omega arith;
}

-- Worker 1 has 7 to 10 and no further blocks; worker 0 has 1 to 4, and goes on with the blocks at 4 and 6.
abbrev finishing : Message
finishing = record {
  qp_num = 11;
  imm = imm_data 1 2 0;
  payload = λ a. if ltb a 16 then 7 + a / 4 else 1000 + 2 * ((a - 16) / 4);
}

abbrev going_on : Message
going_on = record {
  qp_num = 10;
  imm = imm_data 1 2 0;
  payload = λ a. if ltb a 16 then 1 + a / 4 else 4 + 2 * ((a - 16) / 4);
}

abbrev sum32 : ℕ → ℕ → ℕ
sum32 a b = u32 (a + b)

abbrev before : State
unfolding initial_state
before = initial_state (λ a. 0)

finishing-IsFor : IsFor 2 (λ a b. 0) aggregator sum32 0 finishing
unfolding imm_data imm_slot imm_num imm_typecode code_add element_add
finishing-IsFor = record {
  its_slot = refl;
  its_sender = omega arith;
  few = omega arith;
  its_type = refl;
}

going_on-IsFor : IsFor 2 (λ a b. 0) aggregator sum32 0 going_on
unfolding imm_data imm_slot imm_num imm_typecode code_add element_add
going_on-IsFor = record {
  its_slot = refl;
  its_sender = omega arith;
  few = omega arith;
  its_type = refl;
}

abbrev complete : State
complete =
    receive copying aggregator sum32 0 going_on
      (receive copying aggregator sum32 0 finishing before)

round-Sends :
    Sends 2 copying (λ a b. 0) aggregator sum32 0 finishing (going_on ∷ []) before complete
unfolding imm_data imm_slot imm_num imm_typecode slot_complete blocks_per_message receive_blocks
    register receive_block record_offset note_complete accumulate least_offset loop_over add_words
    copy_words block_index blocks_per_thread meta_addr recv_addr pool_addr pool_base initial_state
round-Sends = (finishing-IsFor, refl, (going_on-IsFor, refl, refl))

two_complete : complete.completed_blocks 0 ≤ 2
unfolding imm_data imm_slot imm_num imm_typecode slot_complete blocks_per_message receive_blocks
    register receive_block record_offset note_complete accumulate least_offset loop_over add_words
    copy_words block_index blocks_per_thread meta_addr recv_addr pool_addr pool_base initial_state
two_complete = omega arith

run_round-IsSummed_example :
    (s' : State) × (out : List Request) × (run_round copying
        (λ a b. 0)
        aggregator
        0
        (finishing ∷ going_on ∷ [])
        before
      ≡ some (s', out))
    × IsSummed 2 aggregator aggregator-Fits copying sum32 0
        (omega arith)
        finishing
        (going_on ∷ [])
        before
        complete
        s'
unfolding initial_state
run_round-IsSummed_example =
    run_round-IsSummed 2 aggregator aggregator-Fits copying sum32 0 (omega arith) (λ a b. 0)
      finishing (going_on ∷ []) before complete (omega arith) (omega arith) round-Sends two_complete
