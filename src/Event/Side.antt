-- ===== src/Event/Side.antt =====
-- The values of enum class Side (include/vectortick/common/types.hpp).
use vector_tick.Common.{ℕ}

abbrev pub bid : ℕ
bid = 0

abbrev pub ask : ℕ
ask = 1

abbrev pub invalid : ℕ
invalid = 255
