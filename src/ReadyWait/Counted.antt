-- ===== src/ReadyWait/Counted.antt =====
-- The wait ends with the poll in which the last of the aggregators is ready.
use omnireduce.Base.{ℕ, ◌+◌, ◌<◌, ◌≤◌, ◌≡◌, refl, arith, List, [], ◌∷◌, ◌++◌, none, some}
use omnireduce.ReadyWait.{Completion, count_ready, wait_ready}

-- The receives among completions, and among all polls.
abbrev pub receives : List Completion → ℕ
receives [] = 0
receives (Completion.received ∷ cs) = 1 + receives cs
receives (Completion.sent ∷ cs) = receives cs
receives (Completion.broken ∷ cs) = receives cs

abbrev pub all_receives : List (List Completion) → ℕ
all_receives [] = 0
all_receives (wc ∷ polls) = receives wc + all_receives polls

count_ready-receives : (cs : List Completion) (n : ℕ) → count_ready cs n ≡ n + receives cs
unfolding count_ready
count_ready-receives [] n = omega arith
count_ready-receives (Completion.received ∷ cs) n = omega (arith, count_ready-receives cs (n + 1))
count_ready-receives (Completion.sent ∷ cs) n = count_ready-receives cs n
count_ready-receives (Completion.broken ∷ cs) n = count_ready-receives cs n

wait_ready-from :
    (n : ℕ) (before : List (List Completion)) (last : List Completion)
    (after : List (List Completion)) (ready : ℕ)
    → ready + all_receives before < n
    → n ≤ ready + all_receives before + receives last
    → wait_ready n (before ++ last ∷ after) ready ≡ some after
unfolding wait_ready
wait_ready-from n [] last after ready low high = ground (arith, count_ready-receives last ready)
wait_ready-from n (wc ∷ polls) last after ready low high = ground (
  arith,
  count_ready-receives wc ready,
  wait_ready-from n polls last after (count_ready wc ready),
)

wait_ready-none :
    (n : ℕ) (polls : List (List Completion)) (ready : ℕ)
    → ready + all_receives polls < n
    → wait_ready n polls ready ≡ none
unfolding wait_ready
wait_ready-none n [] ready low = refl
wait_ready-none n (wc ∷ polls) ready low =
    ground (arith, count_ready-receives wc ready, wait_ready-none n polls (count_ready wc ready))

-- As long as fewer receives than aggregators are found, send_address waits; it ends with the
-- first poll after which they are as many, whatever the other completions are.
pub wait_ready-ends :
    (n : ℕ) (before : List (List Completion)) (last : List Completion)
    (after : List (List Completion))
    → all_receives before < n
    → n ≤ all_receives before + receives last
    → (wait_ready n before 0 ≡ none) × (wait_ready n (before ++ last ∷ after) 0 ≡ some after)
wait_ready-ends n before last after low high = (
  wait_ready-none n before 0 (omega arith),
  wait_ready-from n before last after 0 (omega arith) (omega arith),
)
