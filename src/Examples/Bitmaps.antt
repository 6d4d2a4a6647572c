-- ===== src/Examples/Bitmaps.antt =====
-- A tensor of three elements in blocks of two, whose threads run the other way round.
use omnireduce.Base.{ℕ, ◌≡◌, arith, List, [], ◌∷◌, ltb}
use omnireduce.Outcome.{ok}
use omnireduce.Bitmap.{Device, compute_bitmap}
use omnireduce.Bitmap.Phases.{IsBlock, Zeroed}
use omnireduce.Bitmap.Zeroed.{compute_bitmap-Zeroed}

abbrev order : ℕ → List ℕ
order b = 1 ∷ 0 ∷ []

order-IsBlock : (b : ℕ) → IsBlock 2 (order b)
order-IsBlock b = record { all = λ t low. ground arith; only = λ t m. ground arith }

abbrev device : Device
device = record { input = λ i. i; bitmap = λ b. 7 }

compute_bitmap-Zeroed_example :
    (d' : Device) × (compute_bitmap (λ x. ltb 1 x) order 3 2 device ≡ ok d')
    × Zeroed (λ x. ltb 1 x) 3 2 1 0 (λ i. i) d'
compute_bitmap-Zeroed_example =
    compute_bitmap-Zeroed (λ x. ltb 1 x) order 3 2 order-IsBlock 2 device (omega arith)
      (omega arith) (omega arith)
