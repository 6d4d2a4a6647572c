-- ===== src/AllReduce/Sequence.antt =====
-- Every AllReduce hands over one tensor and waits for it, after it has announced it where it has to.
use omnireduce.Base.{
  ℕ, ◌+◌, ◌%◌, ◌/◌, ◌≡◌, ◌≢◌, ◌⊎◌, refl, ap, arith, Bool, true, false, Bool-cases, inl, inr, List,
  [], ◌∷◌, ◌==◌, if◌then◌else◌, u32, ℤ, pos, negsuc,
}
use omnireduce.Outcome.{Failure, ok, failed, divide}
use omnireduce.Common.{TensorUpdate, TensorUpdateType}
use omnireduce.Params.{Params}
use omnireduce.AllReduce.{
  Call, Caller, Address, adaptive_size, all_reduce, all_reduce_ngdr, all_reduce_gdr, block_count_of,
  threshold_of, tensor_update, adapt, adapt_direct, send_address, set_device, synchronize, alloc,
  release, to_host, from_host, bitmap_of, announce, hand_over, await,
}

-- The effects that others see: announcements, tensors handed over, and waits.
abbrev pub exchange : List Call → List Call
exchange [] = []
exchange (announce a ∷ cs) = announce a ∷ exchange cs
exchange (hand_over tu ∷ cs) = hand_over tu ∷ exchange cs
exchange (await id ∷ cs) = await id ∷ exchange cs
exchange (set_device d ∷ cs) = exchange cs
exchange (synchronize ∷ cs) = exchange cs
exchange (alloc n ∷ cs) = exchange cs
exchange (release ∷ cs) = exchange cs
exchange (to_host p n ∷ cs) = exchange cs
exchange (from_host p n ∷ cs) = exchange cs
exchange (bitmap_of p n b t ∷ cs) = exchange cs

abbrev pub announced : Bool → Address → List Call → List Call
announced told a cs = if told then announce a ∷ cs else cs

-- With direct memory, or with an adaptive block size.
abbrev pub told : Params → Bool
told p = if p.direct_memory == 0 then (if p.adaptive_blocksize == 0 then false else true) else true

-- What a call leaves behind.
pub record IsExchange (type : TensorUpdateType) (count : ℕ) (tell : Bool) (c c' : Caller)
    (calls : List Call) : Type 0 where
  pub tu : TensorUpdate
  pub seen :
      exchange calls
      ≡ announced tell
          (record { count = u32 count; typecode = type; block_size = c'.params.block_size })
          (hand_over tu ∷ await tu.id ∷ [])
  pub fresh : tu.id ≡ c.tid_counter + 1
  pub counted : c'.tid_counter ≡ tu.id
  pub whole : (tu.start_idx ≡ 0) × (tu.count ≡ u32 count) × (tu.type ≡ type)

-- The block size after a call.
abbrev pub size_after : Params → ℕ
size_after p = if p.adaptive_blocksize == 0 then p.block_size else adaptive_size

-- The blocks of a tensor, where the block size is positive.
abbrev pub blocks : ℕ → ℕ → ℕ
blocks count b = if count % b == 0 then count / b else u32 (count / b + 1)

block_count_of-ok : (count b : ℕ) → b ≢ 0 → block_count_of count b ≡ ok (blocks count b)
unfolding block_count_of divide
block_count_of-ok count b known = elim (Bool-cases (b == 0)) [
  | inl e ↦ absurd (known (ground arith))
  | inr e ↦ rw e
]

-- The call without GPU direct RDMA, and with it.
module _ (type : TensorUpdateType) (ptr count dev : ℕ) (c : Caller)
    (known : c.params.block_size ≢ 0) where
  -- The caller that a call leaves behind.
  abbrev pub later : Caller
  later = record c { tid_counter = c.tid_counter + 1 }

  abbrev pub handed : ℕ → ℤ → Bool → Bool → TensorUpdate
  handed p d async bitmap_async =
      tensor_update type p count c.bitmap (blocks count c.params.block_size) d async bitmap_async
        (c.tid_counter + 1)

  all_reduce_ngdr-Exchange :
      (async : Bool)
      → (calls : List Call) × (all_reduce_ngdr type ptr count dev async false c ≡ ok (later, calls))
        × IsExchange type count false c later calls
  unfolding all_reduce_ngdr
  all_reduce_ngdr-Exchange async = (
    Call.set_device dev
        ∷ Call.alloc (blocks count c.params.block_size)
        ∷ Call.bitmap_of ptr count c.params.block_size (threshold_of type c.params)
        ∷ Call.hand_over (handed ptr (pos dev) async false)
        ∷ Call.await (c.tid_counter + 1)
        ∷ Call.release
        ∷ [],
    rw (block_count_of-ok count c.params.block_size known),
    record { tu = _; seen = refl; fresh = refl; counted = refl; whole = (refl, refl, refl) },
  )

  all_reduce_gdr-Exchange :
      c.params.direct_memory ≢ 0
      → (calls : List Call) × (all_reduce_gdr type ptr count dev c ≡ ok (later, calls))
        × IsExchange type count true c later calls
  unfolding all_reduce_gdr
  all_reduce_gdr-Exchange direct =
      let other : (c.params.direct_memory == 0) ≡ false = ground arith in
      (
        Call.set_device dev
            ∷ Call.alloc (blocks count c.params.block_size)
            ∷ Call.bitmap_of ptr count c.params.block_size (threshold_of type c.params)
            ∷ send_address c.params count type
            ∷ Call.hand_over (handed ptr (negsuc 0) false false)
            ∷ Call.await (c.tid_counter + 1)
            ∷ Call.release
            ∷ [],
        rw (block_count_of-ok count c.params.block_size known, other),
        record { tu = _; seen = refl; fresh = refl; counted = refl; whole = (refl, refl, refl) },
      )

module _ (type : TensorUpdateType) (ptr count dev : ℕ) (c : Caller)
    (mine : c.params.gpu_dev_id ≡ dev) (known : size_after c.params ≢ 0) where
  -- The GPU of a call is that of the configuration.
  gpu-eq : (c.params.gpu_dev_id == dev) ≡ true
  gpu-eq = ground arith

  pub all_reduce-Exchange :
      (c' : Caller) × (calls : List Call) × (all_reduce type ptr count dev c ≡ ok (c', calls))
      × IsExchange type count (told c.params) c c' calls
  unfolding all_reduce adapt adapt_direct send_address omnireduce.Params.set_inf_offset
  all_reduce-Exchange = elim (Bool-cases (c.params.direct_memory == 0)) [
    | inl d ↦ elim (Bool-cases (c.params.adaptive_blocksize == 0)) [
      | inl a ↦
          let block_pos : c.params.block_size ≢ 0 = rw a at known in
          let (calls, e, x) = all_reduce_ngdr-Exchange type ptr count dev c block_pos true in
          (
            later type ptr count dev c block_pos,
            Call.set_device dev ∷ calls,
            rw (gpu-eq, d, a, e) refl,
            rw (d, a)
                record {
                  tu = x.tu;
                  seen = x.seen;
                  fresh = x.fresh;
                  counted = x.counted;
                  whole = x.whole;
                },
          )
      | inr a ↦
          let b = record c { params = adapt c.params } in
          let (calls, e, x) = all_reduce_ngdr-Exchange type ptr count dev b (ground arith) true in
          (
            later type ptr count dev b (ground arith),
            Call.set_device dev ∷ send_address b.params count type ∷ calls,
            rw (gpu-eq, d, a, e) refl,
            rw (d, a)
                record {
                  tu = x.tu;
                  seen =
                      ap
                        (λ k.
                          announce (record {
                            count = u32 count;
                            typecode = type;
                            block_size = b.params.block_size;
                          })
                          ∷ k)
                        x.seen;
                  fresh = x.fresh;
                  counted = x.counted;
                  whole = x.whole;
                },
          )
    ]
    | inr d ↦ elim (Bool-cases (c.params.adaptive_blocksize == 0)) [
      | inl a ↦
          let block_pos : c.params.block_size ≢ 0 = rw a at known in
          let (calls, e, x) =
            all_reduce_gdr-Exchange type ptr count dev c block_pos (ground arith) in
          (
            later type ptr count dev c block_pos,
            Call.set_device dev ∷ calls,
            rw (gpu-eq, d, a, e) refl,
            rw d record {
              tu = x.tu;
              seen = x.seen;
              fresh = x.fresh;
              counted = x.counted;
              whole = x.whole;
            },
          )
      | inr a ↦
          let b = record c { params = adapt_direct c.params } in
          let (calls, e, x) =
            all_reduce_gdr-Exchange type ptr count dev b (ground arith) (ground arith) in
          (
            later type ptr count dev b (ground arith),
            Call.set_device dev ∷ calls,
            rw (gpu-eq, d, a, e) refl,
            rw d record {
              tu = x.tu;
              seen = x.seen;
              fresh = x.fresh;
              counted = x.counted;
              whole = x.whole;
            },
          )
    ]
  ]

module _ (type : TensorUpdateType) (ptr count dev : ℕ) (c : Caller) where
  -- When AllReduce fails, either the tensor is on another GPU than that of the configuration,
  -- or the block size after the call is 0 and is divided by; the exit of AllReduce_GDR without
  -- direct memory is never taken.
  pub all_reduce-failed :
      (why : Failure)
      → all_reduce type ptr count dev c ≡ failed why
      → ((why ≡ Failure.gpu_mismatch) × (c.params.gpu_dev_id ≢ dev))
        ⊎ ((why ≡ Failure.divide_by_zero) × (size_after c.params ≡ 0))
  unfolding all_reduce adapt adapt_direct all_reduce_ngdr all_reduce_gdr block_count_of divide
      omnireduce.Params.set_inf_offset
  all_reduce-failed why failing = ground arith
