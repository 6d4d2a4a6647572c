-- ===== src/NextBlock/Respond.antt =====
-- A worker answers an aggregator exactly when it has announced the block that the aggregator asks for.
use omnireduce.Base.{ℕ, ◌+◌, ◌*◌, ◌/◌, ◌≤◌, ◌<◌, ◌≡◌, arith, dec_lt, mul_mono}
use mathlib.Core.Logic.{◌↔◌}
use omnireduce.NextBlock.{Part}
use omnireduce.NextBlock.Scan.{InPart, First, found, exhausted}

-- `announced` is the result of the search from `next`; the aggregator never asks for more than what a
-- worker announced. The worker's test bitmap_ptr[asked/block_size]==0 then tells if the two agree.
pub announced_iff :
    (p : Part) (stride max_index next announced i : ℕ)
    → 0 < stride
    → First p stride max_index next announced
    → InPart p (next + i * stride)
    → next + i * stride ≤ announced
    → p.start_offset + p.tensor_size ≤ max_index
    → (p.bitmap ((next + i * stride) / p.block_size) ≡ 0) ↔ (next + i * stride ≡ announced)
announced_iff p stride max_index next announced i pos (found k r q inside set before) here le
      beyond =
    (
      (λ zero_here. elim (dec_lt i k) [
        | yes h ↦ absurd (before i h zero_here)
        | no h ↦ omega (arith, mul_mono k i stride (omega arith))
      ]),
      (λ same. rw same set),
    )
announced_iff p stride max_index next announced i pos (exhausted none_set) here le beyond = (
  (λ zero_here. absurd (none_set i here zero_here)),
  (λ same. absurd (omega (arith, here.upper))),
)
