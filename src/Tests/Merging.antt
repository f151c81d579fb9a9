-- ===== src/Tests/Merging.antt =====
-- Chunks of the client that cut frames, for the WebSocket filter.
use grpcgi.Base.{List, [], ◌∷◌}
use grpcgi.Base.Machine.{Bytes}

-- A text frame and a ping, and the start of a third frame, in three chunks.
abbrev first_piece : Bytes
first_piece = 0x81 ∷ 0x02 ∷ b'h' ∷ []

abbrev more_pieces : List Bytes
more_pieces = (b'i' ∷ 0x89 ∷ []) ∷ (0x01 ∷ b'p' ∷ 0x81 ∷ 0x84 ∷ 0x37 ∷ []) ∷ []
