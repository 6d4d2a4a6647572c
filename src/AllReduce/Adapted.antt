-- ===== src/AllReduce/Adapted.antt =====
-- AllReduce leaves parameters that the threads can rely on, also where it changes the block size.
use omnireduce.Base.{
  ℕ, ◌*◌, ◌≡◌, inl, inr, refl, arith, true, false, Bool-cases, List, ◌==◌, if◌then◌else◌, u32,
}
use omnireduce.Outcome.{ok, divide}
use omnireduce.Common.{TensorUpdateType}
use omnireduce.Params.{Params, inf_offset_at, num_blocks_per_thread}
use omnireduce.Params.Consistent.{IsConsistent}
use omnireduce.AllReduce.{
  Call, Caller, all_reduce, all_reduce_ngdr, all_reduce_gdr, adapt, adapt_direct, block_count_of,
}

-- The parameters after a call.
abbrev pub params_after : Params → Params
params_after p =
    if p.adaptive_blocksize == 0
    then p
    else if p.direct_memory == 0
    then adapt p
    else adapt_direct p

pub all_reduce-params_after :
    (type : TensorUpdateType) (ptr count dev : ℕ) (c c' : Caller) (calls : List Call)
    → all_reduce type ptr count dev c ≡ ok (c', calls)
    → c'.params ≡ params_after c.params
unfolding all_reduce all_reduce_ngdr all_reduce_gdr block_count_of divide adapt adapt_direct
all_reduce-params_after type ptr count dev c c' calls h = ground arith

adapt-IsConsistent : (p : Params) → p.direct_memory ≡ 0 → IsConsistent p → IsConsistent (adapt p)
unfolding adapt omnireduce.Params.set_inf_offset num_blocks_per_thread
adapt-IsConsistent p off known = record {
  block_pos = ground arith;
  slots_small = known.slots_small;
  sentinels = refl;
  direct = inl off;
}

adapt_direct-IsConsistent :
    (p : Params) → p.direct_memory ≡ 1 → IsConsistent p → IsConsistent (adapt_direct p)
unfolding adapt_direct omnireduce.Params.set_inf_offset num_blocks_per_thread
adapt_direct-IsConsistent p on known =
    let same : u32 (p.num_slots_per_thread * 1) ≡ p.num_slots_per_thread =
      omega (arith, known.slots_small) in
    record {
      block_pos = ground arith;
      slots_small = known.slots_small;
      sentinels = rw same refl;
      direct = inr (on, refl);
    }

pub params_after-IsConsistent : (p : Params) → IsConsistent p → IsConsistent (params_after p)
params_after-IsConsistent p known = elim (Bool-cases (p.adaptive_blocksize == 0)) [
  | inl a ↦ rw a known
  | inr a ↦ elim known.direct [
    | inl off ↦
        let z : (p.direct_memory == 0) ≡ true = ground arith in
        rw (a, z) (adapt-IsConsistent p off known)
    | inr on ↦
        let z : (p.direct_memory == 0) ≡ false = ground arith in
        rw (a, z) (adapt_direct-IsConsistent p (on.0) known)
  ]
]

-- A call of AllReduce that succeeds leaves a consistent configuration consistent: blocks are not
-- empty, the sentinels are those of the block size and the blocks of a thread, and with direct
-- memory, which is 0 or 1, a message is one block.
pub all_reduce-IsConsistent :
    (type : TensorUpdateType) (ptr count dev : ℕ) (c c' : Caller) (calls : List Call)
    → all_reduce type ptr count dev c ≡ ok (c', calls)
    → IsConsistent c.params
    → IsConsistent c'.params
all_reduce-IsConsistent type ptr count dev c c' calls h known =
    rw (all_reduce-params_after type ptr count dev c c' calls h)
      (params_after-IsConsistent c.params known)
