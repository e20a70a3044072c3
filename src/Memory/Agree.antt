-- ===== src/Memory/Agree.antt =====
-- Two memories that agree on their first bytes show the same to whoever reads only those.
use vector_tick.Common.{
  ℕ, zero, suc, ◌+◌, ◌*◌, ◌^◌, ◌≤◌, ◌<◌, Bool, true, false, ◌≡◌, refl, ap₂, arith, ◌∷◌,
}
use vector_tick.Memory.{Mem, shift, load, load_le, load_be, bytes}

-- The first `n` bytes are the same.
abbrev pub Agree : ℕ → Mem → Mem → Type 0
Agree n m m' = (i : ℕ) → i < n → m i ≡ m' i

load_le-Agree :
    (n : ℕ) {size : ℕ} {m m' : Mem} (a : ℕ)
    → Agree size m m'
    → a + n ≤ size
    → load_le n m a ≡ load_le n m' a
load_le-Agree zero a h le = refl
load_le-Agree (suc n) a h le =
    ap₂ (λ (x y : ℕ). x + 256 * y) (h a (omega arith)) (load_le-Agree n (a + 1) h (omega arith))

load_be-Agree :
    (n : ℕ) {size : ℕ} {m m' : Mem} (a : ℕ)
    → Agree size m m'
    → a + n ≤ size
    → load_be n m a ≡ load_be n m' a
load_be-Agree zero a h le = refl
load_be-Agree (suc n) a h le =
    ap₂ (λ (x y : ℕ). x * 256 ^ n + y) (h a (omega arith)) (load_be-Agree n (a + 1) h (omega arith))

pub load-Agree :
    (little : Bool) (n : ℕ) {size : ℕ} {m m' : Mem} (a : ℕ)
    → Agree size m m'
    → a + n ≤ size
    → load little n m a ≡ load little n m' a
load-Agree true n a h le = load_le-Agree n a h le
load-Agree false n a h le = load_be-Agree n a h le

pub bytes-Agree : (n : ℕ) {m m' : Mem} → Agree n m m' → bytes m n ≡ bytes m' n
unfolding bytes
bytes-Agree zero h = refl
bytes-Agree (suc n) h =
    ap₂ ◌∷◌ (h 0 (omega arith)) (bytes-Agree n (λ i lt. h (1 + i) (omega arith)))

pub shift-Agree :
    (k n : ℕ) {size : ℕ} {m m' : Mem}
    → Agree size m m'
    → k + n ≤ size
    → Agree n (shift m k) (shift m' k)
shift-Agree k n h le i lt = h (k + i) (omega arith)
