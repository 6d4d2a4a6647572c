-- ===== src/Socket.antt =====
-- sock_sync_data of omnireduce/omnireduce.cpp. What the operating system answers to write and read is an
-- argument: the result of write, and the results of the reads one after the other. Bytes are ℕ.
pub mod Reads
use omnireduce.Base.{
  ℕ, zero, suc, ◌+◌, Bool, List, [], ◌∷◌, Option, some, none, ℤ, pos, negsuc, ltb, if◌then◌else◌,
  length, update,
}

-- A read that answers: bytes, 0 at the end of the stream, or -1.
pub data ReadResult : Type 0 where
  got : List ℕ → ReadResult
  end_of_stream error : ReadResult

-- The bytes that a read puts from `at` on.
unfoldable pub store : List ℕ → ℕ → (ℕ → ℕ) → ℕ → ℕ
store [] at m = m
store (b ∷ bs) at m = store bs (at + 1) (update m at b)

-- The loop: every read puts its bytes at the start of `remote_data`. `none`: it waits for an answer
-- that the list does not have.
unfoldable pub read_loop :
    (xfer_size total_read_bytes : ℕ) → List ReadResult → (ℕ → ℕ) → Option (ℤ × (ℕ → ℕ))
unfolding store
read_loop xfer_size total [] remote_data =
    if ltb total xfer_size then none else some (pos 0, remote_data)
read_loop xfer_size total (ReadResult.got bs ∷ rs) remote_data =
    let rest = read_loop xfer_size (total + length bs) rs (store bs 0 remote_data) in
    if ltb total xfer_size then rest else some (pos 0, remote_data)
read_loop xfer_size total (ReadResult.end_of_stream ∷ rs) remote_data =
    let rest = read_loop xfer_size total rs remote_data in
    if ltb total xfer_size then rest else some (pos 0, remote_data)
read_loop xfer_size total (ReadResult.error ∷ rs) remote_data =
    if ltb total xfer_size then some (negsuc 0, remote_data) else some (pos 0, remote_data)

-- The result of write is -1 or the number of bytes written. A short write is an error with that
-- number as result, unless it is 0.
unfoldable pub sock_sync_data :
    (xfer_size : ℕ) → (written : ℤ) → List ReadResult → (ℕ → ℕ) → Option (ℤ × (ℕ → ℕ))
unfolding read_loop
sock_sync_data xfer_size (negsuc n) reads remote_data = some (negsuc n, remote_data)
sock_sync_data xfer_size (pos zero) reads remote_data = read_loop xfer_size 0 reads remote_data
sock_sync_data xfer_size (pos (suc n)) reads remote_data =
    if ltb (suc n) xfer_size
    then some (pos (suc n), remote_data)
    else read_loop xfer_size 0 reads remote_data
