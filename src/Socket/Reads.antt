-- ===== src/Socket/Reads.antt =====
-- What the callers of sock_sync_data get, and what they may not take for granted.
use mathlib.Core.Path.{fun_ext}
use omnireduce.Base.{
  ℕ, zero, suc, ◌+◌, ◌≤◌, ◌<◌, ◌≡◌, ◌⊎◌, inl, inr, refl, sym, ap, ◌∙◌, arith, Bool-cases,
  if◌then◌else◌, false, List, [], ◌∷◌, ◌++◌, Option, some, none, ℤ, pos, negsuc, ltb, length,
  update, get_or,
}
use omnireduce.Socket.{ReadResult, store, read_loop, sock_sync_data}

-- What a peer sends arrives whole in `m`.
abbrev pub Arrived : List ℕ → (ℕ → ℕ) → Type 0
Arrived bs m = (i : ℕ) → i < length bs → m i ≡ get_or bs i 0

store-before : (bs : List ℕ) (at i : ℕ) (m : ℕ → ℕ) → i < at → store bs at m i ≡ m i
unfolding store
store-before [] at i m low = refl
store-before (b ∷ bs) at i m low = ground (arith, store-before bs (at + 1) i (update m at b))

next : (a i : ℕ) → a + 1 + i ≡ a + suc i
next a i = omega arith

store-inside :
    (bs : List ℕ) (at i : ℕ) (m : ℕ → ℕ) → i < length bs → store bs at m (at + i) ≡ get_or bs i 0
unfolding store
store-inside [] at i m low = absurd (omega arith)
store-inside (b ∷ bs) at zero m low = ground (arith, store-before bs (at + 1) at (update m at b))
store-inside (b ∷ bs) at (suc i) m low =
    rw (← next at i) (store-inside bs (at + 1) i _ (omega arith))

-- All that the reads bring.
abbrev pub bytes_of : List ReadResult → ℕ
bytes_of [] = 0
bytes_of (ReadResult.got bs ∷ rs) = length bs + bytes_of rs
bytes_of (ReadResult.end_of_stream ∷ rs) = bytes_of rs
bytes_of (ReadResult.error ∷ rs) = bytes_of rs

-- The peer has closed the connection.
abbrev pub closed : ℕ → List ReadResult
closed zero = []
closed (suc n) = ReadResult.end_of_stream ∷ closed n

-- The bytes of a read at the start of `m`, and `m` behind them.
abbrev pub placed : List ℕ → (ℕ → ℕ) → ℕ → ℕ
placed bs m i = if ltb i (length bs) then get_or bs i 0 else m i

store-after : (bs : List ℕ) (at i : ℕ) (m : ℕ → ℕ) → at + length bs ≤ i → store bs at m i ≡ m i
unfolding store
store-after [] at i m high = refl
store-after (b ∷ bs) at i m high =
    ground (arith, store-after bs (at + 1) i (update m at b) (omega (arith, high)))

store-placed : (bs : List ℕ) (m : ℕ → ℕ) → store bs 0 m ≡ placed bs m
store-placed bs m = fun_ext (λ i. elim (Bool-cases (ltb i (length bs))) [
  | inl low ↦
      let start : 0 + i ≡ i = omega arith in
      rw low (ap (λ (x : ℕ). store bs 0 m x) (sym start) ∙ store-inside bs 0 i m (ground arith))
  | inr high ↦ rw high (store-after bs 0 i m (ground arith))
])

-- What the reads leave in remote_data: each puts its bytes at the start.
abbrev pub left_in : List ReadResult → (ℕ → ℕ) → ℕ → ℕ
left_in [] m = m
left_in (ReadResult.got bs ∷ rs) m = left_in rs (placed bs m)
left_in (ReadResult.end_of_stream ∷ rs) m = left_in rs m
left_in (ReadResult.error ∷ rs) m = left_in rs m

-- No read fails, and each is made while bytes are missing.
abbrev pub IsWanted : (xfer total : ℕ) → List ReadResult → Type 0
IsWanted xfer total [] = Unit {0}
IsWanted xfer total (ReadResult.got bs ∷ rs) = (total < xfer) × IsWanted xfer (total + length bs) rs
IsWanted xfer total (ReadResult.end_of_stream ∷ rs) = (total < xfer) × IsWanted xfer total rs
IsWanted xfer total (ReadResult.error ∷ rs) = ⊥

-- The reads `made` before the loop ends with `rc`: after enough bytes, or at a read that fails.
pub record Ended (xfer total : ℕ) (rs : List ReadResult) (m m' : ℕ → ℕ) (rc : ℤ) : Type 0 where
  pub made : List ReadResult
  pub others : List ReadResult
  pub split : rs ≡ made ++ others
  pub wanted : IsWanted xfer total made
  pub left : m' ≡ left_in made m
  pub reason :
      ((rc ≡ pos 0) × (xfer ≤ total + bytes_of made))
      ⊎ ((rc ≡ negsuc 0)
          × (total + bytes_of made < xfer)
          × ((rest : List ReadResult) × (others ≡ ReadResult.error ∷ rest)))

-- No further read.
stops :
    (xfer total : ℕ) (rs : List ReadResult) (m m' : ℕ → ℕ) (rc : ℤ)
    → ltb total xfer ≡ false
    → ◌≡◌ {A = Option (ℤ × (ℕ → ℕ))} (some (pos 0, m)) (some (rc, m'))
    → Ended xfer total rs m m' rc
stops xfer total rs m m' rc enough h = record {
  made = [];
  others = rs;
  split = refl;
  wanted = tt;
  left = cc;
  reason = inl (cc, ground arith);
}

-- One more read, before those of the rest.
goes_on :
    (r : ReadResult) (xfer total count : ℕ) (rs : List ReadResult) (m n m' : ℕ → ℕ) (rc : ℤ)
    → ((l : List ReadResult) → IsWanted xfer (total + count) l → IsWanted xfer total (r ∷ l))
    → ((l : List ReadResult) → left_in (r ∷ l) m ≡ left_in l n)
    → ((l : List ReadResult) → bytes_of (r ∷ l) ≡ count + bytes_of l)
    → Ended xfer (total + count) rs n m' rc
    → Ended xfer total (r ∷ rs) m m' rc
goes_on r xfer total count rs m n m' rc wanted left bytes e = record {
  made = r ∷ e.made;
  others = e.others;
  split = ap (λ l. r ∷ l) e.split;
  wanted = wanted e.made e.wanted;
  left = e.left ∙ sym (left e.made);
  reason = elim (e.reason) [
    | inl (zero_result, enough) ↦ inl (zero_result, omega (arith, enough, bytes e.made))
    | inr (failure, missing, next_read) ↦
        inr (failure, omega (arith, missing, bytes e.made), next_read)
  ];
}

read_loop-Ended :
    (xfer total : ℕ) (rs : List ReadResult) (m m' : ℕ → ℕ) (rc : ℤ)
    → read_loop xfer total rs m ≡ some (rc, m')
    → Ended xfer total rs m m' rc
unfolding read_loop
read_loop-Ended xfer total [] m m' rc h = elim (Bool-cases (ltb total xfer)) [
  | inl more ↦ let nothing = rw more at h in cc
  | inr enough ↦ stops xfer total [] m m' rc enough (rw enough at h)
]
read_loop-Ended xfer total (ReadResult.got bs ∷ rs) m m' rc h = elim (Bool-cases (ltb total xfer)) [
  | inl more ↦
      let missing : total < xfer = ground arith in
      goes_on (ReadResult.got bs) xfer total (length bs) rs m (store bs 0 m) m' rc
        (λ l w. (missing, w)) (λ l. ap (left_in l) (sym (store-placed bs m))) (λ l. refl)
        (read_loop-Ended xfer (total + length bs) rs (store bs 0 m) m' rc (rw more at h))
  | inr enough ↦ stops xfer total (ReadResult.got bs ∷ rs) m m' rc enough (rw enough at h)
]
read_loop-Ended xfer total (ReadResult.end_of_stream ∷ rs) m m' rc h =
    elim (Bool-cases (ltb total xfer)) [
      | inl more ↦
          let missing : total < xfer = ground arith in
          let same : total + 0 ≡ total = omega arith in
          goes_on ReadResult.end_of_stream xfer total 0 rs m m m' rc
            (λ l w. (missing, rw same at w)) (λ l. refl) (λ l. omega arith)
            (rw same (read_loop-Ended xfer total rs m m' rc (rw more at h)))
      | inr enough ↦
          stops xfer total (ReadResult.end_of_stream ∷ rs) m m' rc enough (rw enough at h)
    ]
read_loop-Ended xfer total (ReadResult.error ∷ rs) m m' rc h = elim (Bool-cases (ltb total xfer)) [
  | inl more ↦
      let result : ◌≡◌ {A = Option (ℤ × (ℕ → ℕ))} (some (negsuc 0, m)) (some (rc, m')) =
        rw more at h in
      record {
        made = [];
        others = ReadResult.error ∷ rs;
        split = refl;
        wanted = tt;
        left = cc;
        reason = inr (cc, ground arith, (rs, refl));
      }
  | inr enough ↦ stops xfer total (ReadResult.error ∷ rs) m m' rc enough (rw enough at h)
]

-- When sock_sync_data returns, either the write was whole or wrote nothing, and reads follow,
-- each of them while bytes are missing, whose bytes are what is left in remote_data, until there
-- are at least as many bytes as were asked for and the result is 0, or, before that, a read
-- fails and the result is -1; or the write failed or was short, and then its result is returned
-- and remote_data is as before.
pub sock_sync_data-result :
    (xfer : ℕ) (written : ℤ) (rs : List ReadResult) (m m' : ℕ → ℕ) (rc : ℤ)
    → sock_sync_data xfer written rs m ≡ some (rc, m')
    → (((n : ℕ) × (written ≡ pos n) × ((n ≡ 0) ⊎ (xfer ≤ n))) × Ended xfer 0 rs m m' rc)
      ⊎ ((rc ≡ written)
          × (m' ≡ m)
          × ((n : ℕ) × ((written ≡ negsuc n) ⊎ ((written ≡ pos (suc n)) × (suc n < xfer)))))
unfolding sock_sync_data
sock_sync_data-result xfer (negsuc n) rs m m' rc h = inr (cc, cc, (n, inl refl))
sock_sync_data-result xfer (pos zero) rs m m' rc h =
    inl ((0, refl, inl refl), read_loop-Ended xfer 0 rs m m' rc h)
sock_sync_data-result xfer (pos (suc n)) rs m m' rc h = elim (Bool-cases (ltb (suc n) xfer)) [
  | inl short ↦
      let now : ◌≡◌ {A = Option (ℤ × (ℕ → ℕ))} (some (pos (suc n), m)) (some (rc, m')) =
        rw short at h in
      inr (cc, cc, (n, inr (refl, ground arith)))
  | inr whole ↦
      let now : read_loop xfer 0 rs m ≡ some (rc, m') = rw whole at h in
      inl ((suc n, refl, inr (ground arith)), read_loop-Ended xfer 0 rs m m' rc now)
]

read_loop-whole :
    (xfer total : ℕ) (rs : List ReadResult) (m : ℕ → ℕ)
    → xfer ≤ total
    → read_loop xfer total rs m ≡ some (pos 0, m)
unfolding read_loop
read_loop-whole xfer total [] m enough = ground arith
read_loop-whole xfer total (ReadResult.got bs ∷ rs) m enough = ground arith
read_loop-whole xfer total (ReadResult.end_of_stream ∷ rs) m enough = ground arith
read_loop-whole xfer total (ReadResult.error ∷ rs) m enough = ground arith

read_loop-enough :
    (sent : List ℕ) (xfer : ℕ) (rs : List ReadResult) (m : ℕ → ℕ)
    → 0 < xfer
    → xfer ≡ length sent
    → read_loop xfer 0 (ReadResult.got sent ∷ rs) m ≡ some (pos 0, store sent 0 m)
unfolding read_loop
read_loop-enough sent xfer rs m nonempty whole =
    ground (arith, read_loop-whole xfer (0 + length sent) rs (store sent 0 m))

zero-add : (i : ℕ) → 0 + i ≡ i
zero-add i = omega arith

pub sock_sync_data-Arrived :
    (sent : List ℕ) (xfer : ℕ) (rs : List ReadResult) (m : ℕ → ℕ)
    → 0 < length sent
    → xfer ≡ length sent
    → (m' : ℕ → ℕ) × (sock_sync_data xfer (pos xfer) (ReadResult.got sent ∷ rs) m
        ≡ some (pos 0, m'))
      × Arrived sent m'
unfolding sock_sync_data
sock_sync_data-Arrived sent zero rs m nonempty whole = absurd (omega arith)
sock_sync_data-Arrived sent (suc k) rs m nonempty whole =
    let now : ltb (suc k) (suc k) ≡ false = ground arith in
    let all : read_loop (suc k) 0 (ReadResult.got sent ∷ rs) m ≡ some (pos 0, store sent 0 m) =
      read_loop-enough sent (suc k) rs m (omega arith) (omega arith) in
    (store sent 0 m, rw (now, all) refl, λ i low. rw (zero-add i) at (store-inside sent 0 i m low))

read_loop-closed : (xfer n : ℕ) (m : ℕ → ℕ) → 0 < xfer → read_loop xfer 0 (closed n) m ≡ none
unfolding read_loop
read_loop-closed xfer zero m nonempty = ground arith
read_loop-closed xfer (suc n) m nonempty = ground (arith, read_loop-closed xfer n m nonempty)

-- When the peer has closed the connection after a whole write, sock_sync_data of at least one
-- byte does not return, however many reads are answered.
pub sock_sync_data-closed :
    (xfer n : ℕ) (m : ℕ → ℕ) → 0 < xfer → sock_sync_data xfer (pos xfer) (closed n) m ≡ none
unfolding sock_sync_data
sock_sync_data-closed zero n m nonempty = absurd (omega arith)
sock_sync_data-closed (suc k) n m nonempty =
    let whole : ltb (suc k) (suc k) ≡ false = ground arith in
    rw (whole, read_loop-closed (suc k) n m nonempty) refl
