-- ===== src/Context/Partition.antt =====
-- receive_tensor splits a tensor into consecutive parts, one for each thread.
use native.Mathlib.Nat.{mod-lt}
use omnireduce.Base.{
  length, mod-mul_self, true, false, dec_lt, ap, List, [], ◌∷◌, none, mul_mono, div-add-mod,
  div-le_self, sub-mul_step, ◌≢◌, ltb, ◌==◌, Bool-cases, inl, inr, ℕ, zero, suc, ◌+◌, ◌-◌, ◌*◌, ◌/◌,
  ◌%◌, ◌^◌, ◌≤◌, ◌<◌, ◌≡◌, refl, arith, u32, some,
}
use omnireduce.Common.{TensorUpdate}
use omnireduce.Context.{
  Context, message_count, thread_share, thread_count, receive_tensor, send_tensor,
}

-- Where the part of thread `t` of `n` begins, in messages: the threads above it come first.
abbrev before : ℕ → ℕ → ℕ → ℕ
before mc n t = (n - 1 - t) * (mc / n) + (mc % n - (t + 1))

-- The messages cover the tensor, and only the last is partial.
message_count_bounds :
    (count ms : ℕ)
    → 0 < ms
    → count < 2 ^ 31
    → (count ≤ message_count count ms * ms) × (message_count count ms * ms < count + ms)
unfolding message_count
message_count_bounds count ms pos h = elim (Bool-cases (count % ms == 0)) [
  | inl e ↦
      let z : count % ms ≡ 0 = ground arith in
      rw e (omega (arith, div-add-mod count ms pos), omega (arith, div-add-mod count ms pos))
  | inr e ↦
      let z : count % ms ≢ 0 = ground arith in
      let small : u32 (count / ms + 1) ≡ count / ms + 1 = omega (arith, div-le_self count ms pos) in
      rw (e, small)
        (
          omega (arith, div-add-mod count ms pos, mod-lt count pos),
          omega (arith, div-add-mod count ms pos),
        )
]

thread_share-before :
    (mc n t : ℕ)
    → mc < 2 ^ 31
    → t + 1 < n
    → thread_share mc n (suc t) + before mc n (suc t) ≡ before mc n t
unfolding thread_share
thread_share-before mc n t h lt = elim (Bool-cases (ltb (suc t) (mc % n))) [
  | inl e ↦
      let small : u32 (mc / n + 1) ≡ mc / n + 1 = omega (arith, div-le_self mc n (omega arith)) in
      let below : t + 1 < mc % n = ground arith in
      rw (e, small) (omega (arith, sub-mul_step (n - 1) t (mc / n) (omega arith)))
  | inr e ↦
      let above : mc % n ≤ t + 1 = ground arith in
      rw e (omega (arith, sub-mul_step (n - 1) t (mc / n) (omega arith)))
]

-- The threads take their parts in this order: data_ready counts down.
pub receive_all : ℕ → ℕ → Context → List TensorUpdate
receive_all ms zero c = []
receive_all ms (suc t) c =
    let (c', part) = receive_tensor ms t c in
    elim part [ none ↦ [] | some u ↦ u ∷ receive_all ms t c' ]

pub receive_all-zero : (ms : ℕ) (c : Context) → receive_all ms zero c ≡ []
unfolding receive_all
receive_all-zero ms c = refl

pub receive_all-suc :
    (ms t : ℕ) (c c' : Context) (u : TensorUpdate)
    → receive_tensor ms t c ≡ (c', some u)
    → receive_all ms (suc t) c ≡ u ∷ receive_all ms t c'
unfolding receive_all
receive_all-suc ms t c c' u e = ground arith

-- Consecutive parts of `tu` from `start` to `stop`, each at a message boundary.
abbrev pub Parts : TensorUpdate → ℕ → ℕ → ℕ → List TensorUpdate → Type 0
Parts tu ms start stop [] = start ≡ stop
Parts tu ms start stop (u ∷ us) =
    (u ≡ record tu { start_idx = start; count = u.count })
    × (start % ms ≡ 0)
    × (start + u.count ≤ stop)
    × Parts tu ms (start + u.count) stop us

abbrev boundary : ℕ → ℕ → ℕ → ℕ → ℕ → ℕ
boundary count ms mc n zero = count
boundary count ms mc n (suc t) = before mc n t * ms

before-le : (mc n t : ℕ) → t < n → before mc n t ≤ mc
before-le mc n t h =
    omega (arith, div-add-mod mc n (omega arith), mul_mono (n - 1 - t) n (mc / n) (omega arith))

rows_lt : (k q r mc : ℕ) → q * suc k + r ≡ mc → 0 < mc → k * q + (r - 1) < mc
rows_lt k zero r mc e h = omega (arith, mul_mono 0 0 k (omega arith))
rows_lt k (suc q) r mc e h = omega arith

before_zero-lt : (mc n : ℕ) → 0 < n → 0 < mc → before mc n 0 < mc
before_zero-lt mc zero h pos = absurd (omega arith)
before_zero-lt mc (suc k) h pos =
    let e : suc k - 1 - 0 ≡ k = omega arith in
    rw e (rows_lt k (mc / suc k) (mc % suc k) mc (div-add-mod mc (suc k) h) pos)

boundary_top : (count ms mc n : ℕ) → 0 < n → boundary count ms mc n n ≡ 0
boundary_top count ms mc zero h = absurd (omega arith)
boundary_top count ms mc (suc k) h =
    let none_above : suc k - 1 - k ≡ 0 = omega arith in
    let all_given : mc % suc k - (k + 1) ≡ 0 = omega (arith, mod-lt mc h) in
    rw (none_above, all_given) (omega arith)

module _ (ms n count : ℕ) (ms_pos : 0 < ms) (ms_small : ms ≤ 2 ^ 31) (n_pos : 0 < n)
    (n_small : n < 2 ^ 31) (count_small : count < 2 ^ 31) where
  abbrev mc : ℕ
  mc = message_count count ms

  mc-le : mc ≤ count
  mc-le = elim (dec_lt count mc) [
    | yes p ↦ absurd (
        omega (
          arith,
          mul_mono (suc count) mc ms p,
          mul_mono 1 ms count ms_pos,
          message_count_bounds count ms ms_pos count_small,
        ))
    | no q ↦ omega arith
  ]

  first_boundary : before mc n 0 * ms ≤ count
  first_boundary = elim (dec_lt 0 mc) [
    | yes p ↦ omega (
      arith,
      mul_mono (suc (before mc n 0)) mc ms (before_zero-lt mc n n_pos p),
      message_count_bounds count ms ms_pos count_small,
    )
    | no q ↦ omega (arith, mul_mono (before mc n 0) 0 ms (omega (arith, before-le mc n 0 n_pos)))
  ]

  boundary_down : (t : ℕ) → t < n → boundary count ms mc n (suc t) ≤ boundary count ms mc n t
  boundary_down zero h = first_boundary
  boundary_down (suc t) h =
      mul_mono (before mc n (suc t)) (before mc n t) ms
        (omega (arith, thread_share-before mc n t (omega (arith, mc-le)) (omega arith)))

  boundary-le : (t : ℕ) → t < n → before mc n t * ms ≤ count
  boundary-le zero h = first_boundary
  boundary-le (suc t) h = omega (arith, boundary_down (suc t) h, boundary-le t (omega arith))

  boundary-le-count : (t : ℕ) → t < n → boundary count ms mc n t ≤ count
  boundary-le-count zero h = omega arith
  boundary-le-count (suc t) h = boundary-le t (omega arith)

  thread_count-eq :
      (c : Context) (tu : TensorUpdate) (t : ℕ)
      → t < n
      → c.num_worker_threads ≡ n
      → c.data_ready ≡ suc t
      → tu.count ≡ count
      → tu.start_idx ≡ boundary count ms mc n (suc t)
      → tu.start_idx + thread_count ms c t tu ≡ boundary count ms mc n t
  unfolding thread_count
  thread_count-eq c tu zero lt h d e s = rw d (omega (arith, first_boundary))
  thread_count-eq c tu (suc t) lt h d e s =
      let share = thread_share-before mc n t (omega (arith, mc-le)) (omega arith) in
      let more : (suc (suc t) == 1) ≡ false = ground arith in
      rw (d, more, h, e) (omega (arith, ap (λ (k : ℕ). k * ms) share, boundary-le t (omega arith)))

  boundary_small : (t : ℕ) → t < n → boundary count ms mc n t < 2 ^ 31
  boundary_small zero h = count_small
  boundary_small (suc t) h = omega (arith, boundary-le t (omega arith))

  receive_tensor-eq :
      (c : Context) (tu : TensorUpdate) (t : ℕ)
      → t < n
      → c.num_worker_threads ≡ n
      → c.data_ready ≡ suc t
      → tu.count ≡ count
      → tu.start_idx ≡ boundary count ms mc n (suc t)
      → c.tensor_update ≡ some tu
      → receive_tensor ms t c ≡ (
        record c {
          tensor_update = some (record tu { start_idx = boundary count ms mc n t });
          data_ready = t;
        },
        some (record tu { count = thread_count ms c t tu }),
      )
  unfolding receive_tensor
  receive_tensor-eq c tu t lt h d e s held =
      let next = thread_count-eq c tu t lt h d e s in
      let low = boundary_small t lt in
      let wrapped : u32 (tu.start_idx + thread_count ms c t tu) ≡ boundary count ms mc n t =
        omega arith in
      let mine : (suc t == u32 (t + 1)) ≡ true = ground arith in ground arith

  before-aligned : (t : ℕ) → before mc n t * ms % ms ≡ 0
  before-aligned t = mod-mul_self (before mc n t) ms ms_pos

  -- All threads from `t` down to 0, for a tensor `orig` of which the threads above took their part.
  receive_from :
      (t : ℕ) (c : Context) (orig tu : TensorUpdate)
      → t ≤ n
      → c.num_worker_threads ≡ n
      → c.data_ready ≡ t
      → orig.count ≡ count
      → tu ≡ record orig { start_idx = boundary count ms mc n t }
      → c.tensor_update ≡ some tu
      → Parts orig ms (boundary count ms mc n t) count (receive_all ms t c)
        × (length (receive_all ms t c) ≡ t)
  unfolding receive_all
  receive_from zero c orig tu le h d e s held = (refl, refl)
  receive_from (suc t) c orig tu le h d e s held =
      let step = receive_tensor-eq c tu t le h d (ground arith) (ground arith) held in
      let next = thread_count-eq c tu t le h d (ground arith) (ground arith) in
      let rest =
        receive_from t
          (record c {
            tensor_update = some (record tu { start_idx = boundary count ms mc n t });
            data_ready = t;
          })
          orig (record tu { start_idx = boundary count ms mc n t }) (omega arith) h refl e
          (ground arith) refl in
      let sum : boundary count ms mc n (suc t) + thread_count ms c t tu ≡ boundary count ms mc n t =
        ground arith in
      let top = boundary-le-count t le in
      rw (receive_all-suc ms t c _ _ step)
        ((ground arith, before-aligned t, omega arith, rw sum rest.0), ap suc rest.1)

  -- For a message size of 1 to 2^31, and a count and a positive number of threads below 2^31:
  -- when send_tensor has passed a tensor on, the parts that the threads take, from the last
  -- thread to thread 0, are consecutive from 0 to the count, start at message boundaries, and
  -- are as many as the threads.
  pub send_tensor-receive_all :
      (tu : TensorUpdate) (c c' : Context)
      → c.num_worker_threads ≡ n
      → tu.count ≡ count
      → tu.start_idx ≡ 0
      → send_tensor tu c ≡ some c'
      → Parts tu ms 0 count (receive_all ms n c') × (length (receive_all ms n c') ≡ n)
  unfolding send_tensor
  send_tensor-receive_all tu c c' h e s sent =
      let top = boundary_top count ms mc n n_pos in
      let whole =
        receive_from n c' tu tu (omega arith) (ground arith) (ground arith) e (ground arith)
          (ground arith) in
      rw top at whole
