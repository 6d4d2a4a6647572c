-- ===== src/ReadyWait.antt =====
-- The wait of send_address of omnireduce/context.cpp for the aggregators, after it has posted a receive
-- and its address for each, while force_quit is not set. What each poll of cq_address finds is an argument.
pub mod Counted
use omnireduce.Base.{
  ℕ, zero, suc, ◌+◌, Bool, true, false, List, [], ◌∷◌, Option, none, some, leb, if◌then◌else◌,
}

-- A completion, by its status and opcode; a failed one is printed.
pub data Completion : Type 0 where
  received sent broken : Completion

unfoldable pub count_ready : List Completion → ℕ → ℕ
count_ready [] n = n
count_ready (Completion.received ∷ cs) n = count_ready cs (n + 1)
count_ready (Completion.sent ∷ cs) n = count_ready cs n
count_ready (Completion.broken ∷ cs) n = count_ready cs n

-- The polls that are left when the loop ends; `none` is a wait that goes on.
unfoldable pub wait_ready :
    (num_aggregators : ℕ) → List (List Completion) → ℕ → Option (List (List Completion))
wait_ready num_aggregators [] ready_count = none
wait_ready num_aggregators (wc ∷ polls) ready_count =
    let count = count_ready wc ready_count in
    let rest = wait_ready num_aggregators polls count in
    if leb num_aggregators count then some polls else rest

-- The posts before the wait: receives, then sends.
pub data AddressPost : Type 0 where
  post_recv post_send : ℕ → AddressPost

unfoldable pub post_receives : (i n : ℕ) → List AddressPost
post_receives i zero = []
post_receives i (suc n) = AddressPost.post_recv i ∷ post_receives (i + 1) n

unfoldable pub post_sends : (i n : ℕ) → List AddressPost
post_sends i zero = []
post_sends i (suc n) = AddressPost.post_send i ∷ post_sends (i + 1) n
