-- ===== src/Protocol/MessageType.antt =====
-- The values of enum class MessageType (include/vectortick/protocol/frame.hpp).
use vector_tick.Common.{ℕ}

abbrev pub stream_metadata : ℕ
stream_metadata = 0

abbrev pub quote : ℕ
quote = 1

abbrev pub trade : ℕ
trade = 2

abbrev pub book_delta : ℕ
book_delta = 3

abbrev pub status : ℕ
status = 4

abbrev pub heartbeat : ℕ
heartbeat = 5

abbrev pub end_of_stream : ℕ
end_of_stream = 255
