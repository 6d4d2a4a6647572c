-- ===== src/AggContext/Rows.antt =====
-- Where the first offsets of a tensor stand once it is split over the threads.
use omnireduce.Base.{
  ℕ, zero, suc, ◌+◌, ◌-◌, ◌*◌, ◌%◌, ◌^◌, ◌≤◌, ◌<◌, ◌≡◌, refl, ◌∙◌, arith, true, false, get_or, ◌==◌,
  ℕ_discrete, ==_iff,
}
use omnireduce.AggContext.{Server, set_starts, server_starts, first_offsets}
use omnireduce.AggContext.FirstOffsets.{first_offsets-at}

-- The row of thread `i` from `start` on.
abbrev row_of : Server → ℕ → ℕ → ℕ → ℕ
row_of s i start =
    first_offsets s.params.block_size s.params.num_slots_per_thread start 0
      s.params.num_slots_per_thread (s.current_offset_thread i)

-- Threads from `t` on keep their rows.
set_starts-above :
    (n t start i : ℕ) (s : Server)
    → t ≤ i
    → (set_starts n t start s).current_offset_thread i ≡ s.current_offset_thread i
unfolding set_starts
set_starts-above n zero start i s high = refl
set_starts-above n (suc t) start i s high =
    let other : (i == t) ≡ false = ground arith in
    set_starts-above n t _ i _ (omega arith) ∙ rw other refl

set_starts-row :
    (n t start i : ℕ) (s : Server)
    → i < t
    → (set_starts n t start s).current_offset_thread i
      ≡ row_of s i
          (get_or (server_starts s.tensor_size s.params.block_size n t start) (t - 1 - i) 0)
unfolding set_starts server_starts
set_starts-row n zero start i s low = absurd (omega arith)
set_starts-row n (suc t) start i s low = elim (ℕ_discrete i t) [
  | yes e ↦
      let here : suc t - 1 - t ≡ 0 = omega arith in
      let self : (t == t) ≡ true = (==_iff t t).1 refl in
      rw (e, here) (set_starts-above n t _ t _ (omega arith) ∙ rw self refl)
  | no other ↦
      let later : suc t - 1 - i ≡ suc (t - 1 - i) = omega arith in
      let miss : (i == t) ≡ false = ground arith in
      rw later (set_starts-row n t _ i _ (omega arith) ∙ rw miss refl)
]

add-zero : (q : ℕ) → q + 0 ≡ q
add-zero q = omega arith

-- Where the part of a thread starts at block q and as many blocks as it has slots end within
-- 2^32: after the tensor is split over the threads, block q + d of that thread stands in slot (q
-- + d) modulo the number of slots, for each d below that number.
pub set_starts-slots :
    (n i q d : ℕ) (s : Server)
    → i < n
    → get_or (server_starts s.tensor_size s.params.block_size n n 0) (n - 1 - i) 0
      ≡ q * s.params.block_size
    → 0 < s.params.block_size
    → (q + s.params.num_slots_per_thread) * s.params.block_size ≤ 2 ^ 32
    → d < s.params.num_slots_per_thread
    → (set_starts n n 0 s).current_offset_thread i ((q + d) % s.params.num_slots_per_thread)
      ≡ q * s.params.block_size + d * s.params.block_size
set_starts-slots n i q d s low starts size_pos room few =
    let ns = s.params.num_slots_per_thread in
    let fits : (q + 0 + ns) * s.params.block_size ≤ 2 ^ 32 = rw (add-zero q) room in
    rw (set_starts-row n n 0 i s low, starts)
      (first_offsets-at s.params.block_size ns q size_pos 0 ns d _ (omega arith) fits (omega arith)
        (omega arith))
