-- ===== src/Worker/Message.antt =====
-- The layout of a message.
use omnireduce.Base.{
  ◌^◌, ◌≤◌, ◌∙◌, ap, inl, mul_mono, copy_words, copy_words-Outside, copy_words-inside,
  length-append, ℕ, suc, ◌+◌, ◌*◌, ◌<◌, ◌≡◌, refl, arith, List, [], ◌∷◌, ◌++◌, length, update, u32,
  Memory,
}
use omnireduce.Worker.{Env, message_addr, send_words, post_send_client, fill_blocks, fill_offsets}
use omnireduce.Worker.Bounds.{send_words-lem}

fill_offsets-frame :
    (dst : ℕ) (bs : List (ℕ × ℕ)) (m : Memory) (x : ℕ) → x < dst → fill_offsets dst bs m x ≡ m x
unfolding fill_offsets
fill_offsets-frame dst [] m x h = refl
fill_offsets-frame dst ((current, next) ∷ bs) m x h =
    let rest = fill_offsets-frame (dst + 4) bs (update m dst next) x (omega arith) in ground arith

fill_offsets-inside :
    (dst : ℕ) (xs ys : List (ℕ × ℕ)) (current next : ℕ) (m : Memory)
    → fill_offsets dst (xs ++ ((current, next) ∷ ys)) m (dst + 4 * length xs) ≡ next
unfolding fill_offsets
fill_offsets-inside dst [] ys current next m =
    let rest = fill_offsets-frame (dst + 4) ys (update m dst next) dst (omega arith) in ground arith
fill_offsets-inside dst ((c, n) ∷ xs) ys current next m =
    let ih = fill_offsets-inside (dst + 4) xs ys current next (update m dst n) in
    let e : dst + 4 + 4 * length xs ≡ dst + 4 * suc (length xs) = omega arith in rw e at ih

pub start_eq :
    (e : Env) (i n : ℕ)
    → e.element_size ≡ 4
    → i < n
    → 4 * (n * e.block_size) < 2 ^ 32
    → u32 (i * e.block_size * e.element_size) ≡ 4 * (i * e.block_size)
start_eq e i n four h room = rw four (omega (arith, mul_mono i n e.block_size (omega arith)))

module _ (e : Env) (four : e.element_size ≡ 4) (tensor : Memory) (tmp : ℕ) where
  fill_blocks-frame :
      (i : ℕ) (bs : List (ℕ × ℕ)) (m : Memory) (x : ℕ)
      → 4 * ((i + length bs) * e.block_size) < 2 ^ 32
      → x < tmp + 4 * (i * e.block_size)
      → fill_blocks e tensor tmp i bs m x ≡ m x
  unfolding fill_blocks
  fill_blocks-frame i [] m x room h = refl
  fill_blocks-frame i ((current, next) ∷ bs) m x room h =
      let at = start_eq e i (i + suc (length bs)) four (omega arith) room in
      let count : i + 1 + length bs ≡ i + suc (length bs) = omega arith in
      let rest =
        fill_blocks-frame (i + 1) bs
          (copy_words (send_words e current) (tmp + u32 (i * e.block_size * e.element_size))
            (u32 (current * e.element_size)) tensor m)
          x (rw count room) (omega (arith, h)) in
      rest ∙ copy_words-Outside _ _ _ tensor m x (inl (omega (arith, at, h)))

  fill_blocks-inside :
      (i : ℕ) (xs ys : List (ℕ × ℕ)) (current next j : ℕ) (m : Memory)
      → 4 * ((i + length xs + suc (length ys)) * e.block_size) < 2 ^ 32
      → send_words e current ≤ e.block_size
      → j < send_words e current
      → fill_blocks e tensor tmp i
          (xs ++ ((current, next) ∷ ys))
          m
          (tmp + 4 * ((i + length xs) * e.block_size) + 4 * j)
        ≡ tensor (u32 (current * e.element_size) + 4 * j)
  unfolding fill_blocks
  fill_blocks-inside i [] ys current next j m room fits h =
      let at = start_eq e i (i + suc (length ys)) four (omega arith) (omega (arith, room)) in
      let x = tmp + 4 * ((i + 0) * e.block_size) + 4 * j in
      let m1 =
        copy_words (send_words e current) (tmp + u32 (i * e.block_size * e.element_size))
          (u32 (current * e.element_size)) tensor m in
      let rest = fill_blocks-frame (i + 1) ys m1 x (omega (arith, room)) (omega (arith, fits, h)) in
      let place : x ≡ tmp + u32 (i * e.block_size * e.element_size) + 4 * j = omega (arith, at) in
      rest ∙ ap m1 place ∙ copy_words-inside _ _ _ tensor m j h
  fill_blocks-inside i ((c, n) ∷ xs) ys current next j m room fits h =
      let m1 =
        copy_words (send_words e c) (tmp + u32 (i * e.block_size * e.element_size))
          (u32 (c * e.element_size)) tensor m in
      let rest = fill_blocks-inside (i + 1) xs ys current next j m1 (omega (arith, room)) fits h in
      let place : tmp + 4 * ((i + 1 + length xs) * e.block_size) + 4 * j
          ≡ tmp + 4 * ((i + suc (length xs)) * e.block_size) + 4 * j =
        omega arith in
      rw place at rest

-- Behind the blocks of a message that a worker without direct memory puts together stand their
-- next offsets, in the order of the blocks.
pub post_send_client-next_offset :
    (e : Env) (xs ys : List (ℕ × ℕ)) (current next slot qp_num buff_index : ℕ)
    (tensor comm_buf : Memory)
    → (post_send_client e (xs ++ ((current, next) ∷ ys)) slot qp_num buff_index tensor comm_buf).0 (
        message_addr e slot buff_index
        + u32 (e.block_size * length (xs ++ ((current, next) ∷ ys)) * e.element_size)
        + 4 * length xs)
      ≡ next
unfolding post_send_client
post_send_client-next_offset e xs ys current next slot qp_num buff_index tensor comm_buf =
    fill_offsets-inside _ xs ys current next _

pub post_send_client-message :
    (e : Env) (xs ys : List (ℕ × ℕ)) (current next slot qp_num buff_index : ℕ)
    (tensor comm_buf : Memory)
    → e.element_size ≡ 4
    → 4 * (e.start_offset + e.tensor_size) + 4 * e.block_size < 2 ^ 32
    → e.start_offset ≤ current
    → current < e.start_offset + e.tensor_size
    → 4 * (length (xs ++ ((current, next) ∷ ys)) * e.block_size) < 2 ^ 32
    → let message =
        (post_send_client e
          (xs ++ ((current, next) ∷ ys))
          slot
          qp_num
          buff_index
          tensor
          comm_buf).0 in
      let tmp = message_addr e slot buff_index in
      let num = length (xs ++ ((current, next) ∷ ys)) in
      ((j : ℕ)
        → j < e.block_size
        → current + j < e.start_offset + e.tensor_size
        → message (tmp + u32 (length xs * e.block_size * e.element_size) + 4 * j)
          ≡ tensor (4 * (current + j)))
      × (message (tmp + u32 (e.block_size * num * e.element_size) + 4 * length xs) ≡ next)
unfolding post_send_client
post_send_client-message e xs ys current next slot qp_num buff_index tensor comm_buf four small low
      high room =
    let tmp = message_addr e slot buff_index in
    let blocks = xs ++ ((current, next) ∷ ys) in
    let num = length blocks in
    let counted : num ≡ length xs + suc (length ys) = length-append xs ((current, next) ∷ ys) in
    let words = send_words-lem e four small current low (omega arith) in
    let filled = fill_blocks e tensor tmp 0 blocks comm_buf in
    (
      λ j h inside.
          let k = length xs in
          let at = start_eq e k num four (omega arith) room in
          let end : u32 (e.block_size * num * e.element_size) ≡ 4 * (num * e.block_size) =
            rw four (omega (arith, room)) in
          let row = mul_mono (suc k) num e.block_size (omega arith) in
          let fits : send_words e current ≤ e.block_size = rw words (ground arith) in
          let sent : j < send_words e current = rw words (ground (arith, h, inside)) in
          let x = tmp + 4 * ((0 + k) * e.block_size) + 4 * j in
          let place : tmp + u32 (k * e.block_size * e.element_size) + 4 * j ≡ x =
            omega (arith, at) in
          let source : u32 (current * e.element_size) + 4 * j ≡ 4 * (current + j) =
            rw four (omega (arith, small, high)) in
          let rows : num * e.block_size ≡ (0 + k + suc (length ys)) * e.block_size =
            ap (λ (i : ℕ). i * e.block_size) (omega (arith, counted)) in
          rw place (
            fill_offsets-frame _ blocks filled x (omega (arith, end, row, h))
            ∙ fill_blocks-inside e four tensor tmp 0 xs ys current next j comm_buf
                (omega (arith, room, rows)) fits sent
            ∙ ap tensor source),
      fill_offsets-inside _ xs ys current next _,
    )
