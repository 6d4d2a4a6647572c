-- ===== src/Params/InfOffset.antt =====
-- The sentinels that setInfOffset writes: one for each block of a thread, above every offset.
use omnireduce.Base.{
  ℕ, ◌+◌, ◌-◌, ◌*◌, ◌/◌, ◌%◌, ◌≤◌, ◌<◌, ◌≡◌, zero, suc, u32_mod, arith, div-mul_self, mod-add_mul,
  div-mul-le, lt-div-mul, mul_mono, le-div,
}
use omnireduce.Params.{inf_offset_at}

-- The number of the round that the sentinels belong to.
abbrev rounds : ℕ → ℕ → ℕ
rounds bs nb = (u32_mod - 1) / bs / nb

sentinel_value :
    (r nb bs i : ℕ)
    → 0 < r
    → r < u32_mod
    → r * nb * bs < u32_mod
    → i < nb
    → (((r + u32_mod - 1) % u32_mod) * nb * bs + i * bs) % u32_mod ≡ ((r - 1) * nb + i) * bs
sentinel_value zero nb bs i pos small fits h = absurd (omega arith)
sentinel_value (suc r) nb bs i pos small fits h =
    let e : (suc r + u32_mod - 1) % u32_mod ≡ r = omega arith in
    let e' : suc r - 1 ≡ r = omega arith in
    rw (e, e') (omega (arith, mul_mono (r * nb + i) (suc r * nb) bs (omega arith)))

last_round : (r nb bs : ℕ) → 0 < r → r * nb * bs ≡ ((r - 1) * nb + 0) * bs + nb * bs
last_round zero nb bs pos = absurd (omega arith)
last_round (suc r) nb bs pos = let e : suc r - 1 ≡ r = omega arith in rw e (omega arith)

module _ (bs nb : ℕ) (bs_pos : 0 < bs) (nb_pos : 0 < nb) (fits : nb * bs < u32_mod) where
  blocks_lower : (u32_mod - 1) / bs * bs ≤ u32_mod - 1
  blocks_lower = div-mul-le (u32_mod - 1) bs bs_pos

  blocks_upper : u32_mod - 1 < (u32_mod - 1) / bs * bs + bs
  blocks_upper = lt-div-mul (u32_mod - 1) bs bs_pos

  rounds_pos : 0 < rounds bs nb
  rounds_pos = le-div 1 _ nb nb_pos (omega (arith, le-div nb (u32_mod - 1) bs bs_pos (omega arith)))

  rounds_le : rounds bs nb * nb * bs < u32_mod
  rounds_le = omega (
    arith,
    mul_mono (rounds bs nb * nb) ((u32_mod - 1) / bs) bs (div-mul-le _ nb nb_pos),
    blocks_lower,
  )

  lt-rounds : u32_mod ≤ rounds bs nb * nb * bs + nb * bs
  lt-rounds = omega (
    arith,
    mul_mono ((u32_mod - 1) / bs + 1) (rounds bs nb * nb + nb) bs
        (omega (arith, lt-div-mul ((u32_mod - 1) / bs) nb nb_pos)),
    blocks_upper,
  )

  rounds_lt : rounds bs nb < u32_mod
  rounds_lt = omega arith

  -- The sentinel of block `i` is the offset of that block in the last round but one.
  pub inf_offset_lem : (i : ℕ) → i < nb → inf_offset_at bs nb i ≡ ((rounds bs nb - 1) * nb + i) * bs
  unfolding inf_offset_at
  inf_offset_lem i h = sentinel_value (rounds bs nb) nb bs i rounds_pos rounds_lt rounds_le h

  -- For a positive block size and block count whose product is below 2^32: the sentinel of a
  -- block index, divided by the block size, gives back the index as its remainder by the block
  -- count.
  pub inf_offset-index : (i : ℕ) → i < nb → inf_offset_at bs nb i / bs % nb ≡ i
  inf_offset-index i h =
      rw (inf_offset_lem i h, div-mul_self ((rounds bs nb - 1) * nb + i) bs bs_pos)
        (mod-add_mul (rounds bs nb - 1) i nb h)

  -- For such sizes, every sentinel is at or above the first one and below 2^32.
  pub inf_offset_bounds :
      (i : ℕ)
      → i < nb
      → (inf_offset_at bs nb 0 ≤ inf_offset_at bs nb i) × (inf_offset_at bs nb i < u32_mod)
  inf_offset_bounds i h = (
    omega (
      arith,
      inf_offset_lem 0 nb_pos,
      inf_offset_lem i h,
      mul_mono ((rounds bs nb - 1) * nb + 0) ((rounds bs nb - 1) * nb + i) bs (omega arith),
    ),
    unfold inf_offset_at in omega arith,
  )

  -- For such sizes, an offset that leaves two rounds of blocks of room below 2^32 is below the
  -- first sentinel.
  pub lt-inf_offset : (n : ℕ) → n + 2 * (nb * bs) < u32_mod → n < inf_offset_at bs nb 0
  lt-inf_offset n h =
      omega (arith, inf_offset_lem 0 nb_pos, last_round (rounds bs nb) nb bs rounds_pos, lt-rounds)
