-- ===== src/Examples/Delivered.antt =====
-- The worker and the aggregator of Examples/Messages: a message of blocks 2 and 4 of slot 1, the second of
-- which has one element. And send_address with two aggregators.
use omnireduce.Base.{◌≡◌, arith, [], ◌∷◌, some, none}
use omnireduce.Worker.Delivered.{sent}
use omnireduce.ReadyWait.{Completion, wait_ready}
use omnireduce.ReadyWait.Counted.{wait_ready-ends}

-- The first poll finds one of them, the second poll the other.
wait_ready-ends_example :
    (wait_ready 2 ((Completion.sent ∷ Completion.received ∷ []) ∷ []) 0 ≡ none)
    × (wait_ready 2
          ((Completion.sent ∷ Completion.received ∷ []) ∷ (Completion.received ∷ []) ∷ [] ∷ [])
          0
        ≡ some ([] ∷ []))
wait_ready-ends_example =
    wait_ready-ends 2 ((Completion.sent ∷ Completion.received ∷ []) ∷ []) (Completion.received ∷ [])
      ([] ∷ []) (omega arith) (omega arith)
