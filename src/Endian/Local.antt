-- ===== src/Endian/Local.antt =====
-- The readers of n-byte integers look at n bytes.
use vector_tick.Common.{ℕ, ◌+◌, ◌≤◌, Bool, ◌≡◌, ap}
use vector_tick.Common.Int.{to_i64}
use vector_tick.Memory.{Mem}
use vector_tick.Memory.Agree.{Agree, load-Agree}
use vector_tick.Endian.{host_to_network_u16, host_to_network_u32, host_to_network_u64}
use vector_tick.Endian.{read_be_u16, read_be_u32, read_be_u64, read_be_i64}

module _ (little : Bool) {size : ℕ} {m m' : Mem} (h : Agree size m m') (a : ℕ) where
  pub read_be_u16-Agree : a + 2 ≤ size → read_be_u16 little m a ≡ read_be_u16 little m' a
  unfolding read_be_u16
  read_be_u16-Agree le = ap (host_to_network_u16 little) (load-Agree little 2 a h le)

  pub read_be_u32-Agree : a + 4 ≤ size → read_be_u32 little m a ≡ read_be_u32 little m' a
  unfolding read_be_u32
  read_be_u32-Agree le = ap (host_to_network_u32 little) (load-Agree little 4 a h le)

  pub read_be_u64-Agree : a + 8 ≤ size → read_be_u64 little m a ≡ read_be_u64 little m' a
  unfolding read_be_u64
  read_be_u64-Agree le = ap (host_to_network_u64 little) (load-Agree little 8 a h le)

  pub read_be_i64-Agree : a + 8 ≤ size → read_be_i64 little m a ≡ read_be_i64 little m' a
  unfolding read_be_i64
  read_be_i64-Agree le = ap to_i64 (read_be_u64-Agree le)
