-- ===== src/AggContext/Learn.antt =====
-- What the aggregator takes over from the address of a tensor, and that it is what the worker works with.
use omnireduce.Base.{
  ℕ, ◌*◌, ◌/◌, ◌≡◌, ◌≢◌, ◌⊎◌, inl, inr, refl, sym, ◌∙◌, arith, true, false, Bool-cases, List, ◌∷◌,
  [], ◌==◌, if◌then◌else◌, u32, ℕ_discrete,
}
use omnireduce.Outcome.{Failure, ok, failed, divide, ok-injective}
use omnireduce.Common.{TensorUpdate, TensorUpdateType}
use omnireduce.Params.{Params, inf_offset_at, num_blocks_per_thread}
use omnireduce.Params.Consistent.{IsConsistent}
use omnireduce.AllReduce.{Address, Call, Caller, all_reduce, announce, hand_over, await}
use omnireduce.AllReduce.Sequence.{exchange, told, size_after, all_reduce-Exchange}
use omnireduce.AllReduce.Adapted.{params_after, all_reduce-params_after, params_after-IsConsistent}
use omnireduce.AggContext.{Server, learn, take_size}

-- The types that the aggregators sum.
abbrev pub IsSummed : TensorUpdateType → Type 0
IsSummed type = (type ≡ TensorUpdateType.int32) ⊎ (type ≡ TensorUpdateType.float32)

-- The parameters for blocks of `b` words.
abbrev pub sized : ℕ → Params → Params
sized b p =
    let m = if p.direct_memory == 1 then b else p.message_size in
    record p {
      block_size = b;
      message_size = m;
      inf_offset = inf_offset_at b (u32 (p.num_slots_per_thread * (m / b)));
    }

pub take_size-sized : (b : ℕ) (p : Params) → b ≢ 0 → take_size b p ≡ ok (sized b p)
unfolding take_size divide omnireduce.Params.set_inf_offset
take_size-sized b p known =
    let z : (b == 0) ≡ false = ground arith in
    elim (Bool-cases (p.direct_memory == 1)) [ inl d ↦ rw (d, z) | inr d ↦ rw (d, z) ]

sized-IsConsistent : (b : ℕ) (p : Params) → b ≢ 0 → IsConsistent p → IsConsistent (sized b p)
unfolding num_blocks_per_thread
sized-IsConsistent b p block_pos known = record {
  block_pos = block_pos;
  slots_small = known.slots_small;
  sentinels = refl;
  direct = elim known.direct [
    | inl off ↦ inl off
    | inr on ↦ inr (on.0, let z : (p.direct_memory == 1) ≡ true = ground arith in rw z refl)
  ];
}

-- The server after an address that it can work with.
abbrev pub learned : Address → Server → Server
learned a s = record s {
  params = sized a.block_size s.params;
  tensor_size = a.count;
  typecode = a.typecode;
  element_size = 4;
}

pub learn-learned :
    (a : Address) (s : Server)
    → IsSummed a.typecode
    → a.block_size ≢ 0
    → learn a s ≡ ok (learned a s)
unfolding learn
learn-learned a s (inl int) known = rw (int, take_size-sized a.block_size s.params known)
learn-learned a s (inr float) known = rw (float, take_size-sized a.block_size s.params known)

IsSummed-cases :
    (type : TensorUpdateType)
    → IsSummed type ⊎ ((type ≡ TensorUpdateType.no_type) ⊎ (type ≡ TensorUpdateType.float16))
IsSummed-cases TensorUpdateType.no_type = inr (inl refl)
IsSummed-cases TensorUpdateType.int32 = inl (inl refl)
IsSummed-cases TensorUpdateType.float32 = inl (inr refl)
IsSummed-cases TensorUpdateType.float16 = inr (inr refl)

pub learn-ok :
    (a : Address) (s t : Server)
    → learn a s ≡ ok t
    → IsSummed a.typecode × (a.block_size ≢ 0) × (t ≡ learned a s)
unfolding learn take_size divide
learn-ok a s t h = elim (IsSummed-cases a.typecode) [
  | inl summed ↦ elim (ℕ_discrete a.block_size 0) [
    | yes z ↦ absurd (ground arith)
    | no known ↦ (summed, known, ok-injective (sym h ∙ learn-learned a s summed known))
  ]
  | inr other ↦ absurd (ground arith)
]

-- What ends the process at an address.
abbrev pub Refused : Failure → Address → Type 0
Refused why a =
    ((why ≡ Failure.data_type) × (¬ IsSummed a.typecode))
    ⊎ ((why ≡ Failure.divide_by_zero) × (a.block_size ≡ 0))

pub learn-failed :
    (a : Address) (s : Server) (why : Failure) → learn a s ≡ failed why → Refused why a
unfolding learn take_size divide
learn-failed a s why h = elim (IsSummed-cases a.typecode) [
  | inl summed ↦ elim (ℕ_discrete a.block_size 0) [
    | yes z ↦ inr (ground arith, z)
    | no known ↦ absurd (ground (arith, learn-learned a s summed known))
  ]
  | inr other ↦ inl (ground arith, ground arith)
]

pub learn-IsConsistent :
    (a : Address) (s t : Server) → learn a s ≡ ok t → IsConsistent s.params → IsConsistent t.params
learn-IsConsistent a s t h known =
    let (_, block_pos, e) = learn-ok a s t h in
    rw e (sized-IsConsistent a.block_size s.params block_pos known)

-- The parameters that both sides must agree on.
pub record Agrees (p q : Params) : Type 0 where
  pub slots : p.num_slots_per_thread ≡ q.num_slots_per_thread
  pub direct : p.direct_memory ≡ q.direct_memory
  pub message : p.message_size ≡ q.message_size

sized-params_after :
    (p q : Params)
    → IsConsistent p
    → Agrees p q
    → told p ≡ true
    → let r = sized (params_after p).block_size q in
      (r.block_size ≡ (params_after p).block_size)
      × (r.message_size ≡ (params_after p).message_size)
      × (r.inf_offset ≡ (params_after p).inf_offset)
unfolding omnireduce.AllReduce.adapt omnireduce.AllReduce.adapt_direct
    omnireduce.Params.set_inf_offset num_blocks_per_thread
sized-params_after p q known same tells = elim (Bool-cases (p.adaptive_blocksize == 0)) [
  | inl a ↦ elim known.direct [
    | inl off ↦ absurd (ground (arith, tells, off, a))
    | inr on ↦ ground (arith, same, known, on, a)
  ]
  | inr a ↦ elim known.direct [
    | inl off ↦ ground (arith, same, known, off, a)
    | inr on ↦ ground (arith, same, known, on, a)
  ]
]

module _ (type : TensorUpdateType) (ptr count dev : ℕ) (c : Caller) (s : Server)
    (known : IsConsistent c.params) (summed : IsSummed type) (same : Agrees c.params s.params) where
  -- For a consistent configuration, a type that is summed, an aggregator of the same slots,
  -- mode and message size, the GPU of the configuration, and direct memory or an adaptive
  -- block size: AllReduce announces the tensor, then hands it over and waits; the aggregator
  -- takes the announced address, and then has the count and the type of the tensor and the
  -- block size, the message size and the sentinels that the worker has.
  pub learn-all_reduce :
      c.params.gpu_dev_id ≡ dev
      → told c.params ≡ true
      → (c' : Caller) × (calls : List Call) × (a : Address) × (t : Server) × (all_reduce type ptr
            count dev c
          ≡ ok (c', calls))
        × ((tu : TensorUpdate) × (exchange calls ≡ announce a ∷ hand_over tu ∷ await tu.id ∷ []))
        × (learn a s ≡ ok t)
        × (t.tensor_size ≡ u32 count)
        × (t.typecode ≡ type)
        × (t.params.block_size ≡ c'.params.block_size)
        × (t.params.message_size ≡ c'.params.message_size)
        × (t.params.inf_offset ≡ c'.params.inf_offset)
  learn-all_reduce mine tells =
      let size_pos : size_after c.params ≢ 0 = ground (arith, known) in
      let (c', calls, run, seen) = all_reduce-Exchange type ptr count dev c mine size_pos in
      let after = all_reduce-params_after type ptr count dev c c' calls run in
      let block_pos = (params_after-IsConsistent c.params known).block_pos in
      let (e1, e2, e3) = sized-params_after c.params s.params known same tells in
      let a : Address = record {
        count = u32 count;
        typecode = type;
        block_size = c'.params.block_size;
      } in
      (
        c',
        calls,
        a,
        learned a s,
        run,
        (seen.tu, rw tells at seen.seen),
        learn-learned a s summed (rw after block_pos),
        refl,
        refl,
        refl,
        rw after e2,
        rw after e3,
      )
