-- ===== src/Examples/Chunked.antt =====
-- The worker of Examples/Messages, whose part of 20 bytes is copied in chunks of 16 bytes.
use omnireduce.Base.{List, [], ◌∷◌}
use omnireduce.Chunks.{Copy}

abbrev two_copies : List Copy
two_copies = record { offset = 0; size = 16 } ∷ record { offset = 16; size = 4 } ∷ []
