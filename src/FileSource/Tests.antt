-- ===== src/FileSource/Tests.antt =====
-- A file of two messages, and the theorems at it.
use burst_resilient_feed_han.Base.{◌≡◌, none, some, List, [], ◌∷◌, arith, ℕ}
use burst_resilient_feed_han.FileSource.{ItchFileSource, init, next_frame, read_all}
use burst_resilient_feed_han.FileSource.Framing.{read_all_ends, Carries, file_of, file_round_trip}

abbrev messages : List (List ℕ)
messages = (83 ∷ 1 ∷ []) ∷ (68 ∷ []) ∷ []

-- The second length prefix promises more than there is.
abbrev truncated : ItchFileSource
truncated = record { bytes = some (0 ∷ 1 ∷ 83 ∷ 0 ∷ 9 ∷ 1 ∷ []); pos = 0; seq = 0 }

read_all_ends_example : (next_frame (read_all 7 truncated).1).0 ≡ none
read_all_ends_example = read_all_ends 7 truncated (omega arith)

file_round_trip_example : Carries 1 messages (read_all 3 (init (some (file_of messages)))).0
file_round_trip_example = file_round_trip messages 3 (omega arith) (omega arith) (omega arith)
