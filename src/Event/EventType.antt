-- ===== src/Event/EventType.antt =====
-- The values of enum class EventType (include/vectortick/common/types.hpp).
use vector_tick.Common.{ℕ}

abbrev pub quote : ℕ
quote = 0

abbrev pub trade : ℕ
trade = 1

abbrev pub book_delta : ℕ
book_delta = 2

abbrev pub status : ℕ
status = 3

abbrev pub heartbeat : ℕ
heartbeat = 4

abbrev pub invalid : ℕ
invalid = 255
