-- ===== src/Memory.antt =====
-- Raw memory behind a `byte*`: the byte at each offset from the pointer, and std::memcpy between
-- memory and the object representation of an unsigned integer on a host of either byte order.
pub mod Agree
pub mod Shift
use vector_tick.Common.{
  ℕ, zero, suc, ◌+◌, ◌-◌, ◌*◌, ◌/◌, ◌%◌, ◌^◌, ◌<◌, Bool, ◌&&◌, ltb, leb, ◌==◌, if◌then◌else◌, List,
  [], ◌∷◌,
}

abbrev pub Mem : Type 0
Mem = ℕ → ℕ

abbrev pub IsBytes : Mem → Type 0
IsBytes m = (i : ℕ) → m i < 256

-- `ptr + n`
abbrev pub shift : Mem → ℕ → Mem
shift m n i = m (n + i)

-- `ptr[a] = b`
abbrev pub store_byte : Mem → ℕ → ℕ → Mem
store_byte m a b i = if i == a then b else m i

-- Byte `j` of a number, from the lowest.
abbrev pub byte_of : ℕ → ℕ → ℕ
byte_of x j = x / 256 ^ j % 256

-- Byte `j` of the representation of an `n`-byte integer.
abbrev pub object_byte : Bool → ℕ → ℕ → ℕ → ℕ
object_byte little n x j = byte_of x (if little then j else n - 1 - j)

-- memcpy(ptr + a, &x, n)
abbrev pub store : Bool → ℕ → Mem → ℕ → ℕ → Mem
store little n m a x i = if leb a i && ltb i (a + n) then object_byte little n x (i - a) else m i

abbrev pub load_le : ℕ → Mem → ℕ → ℕ
load_le zero m a = 0
load_le (suc n) m a = m a + 256 * load_le n m (a + 1)

abbrev pub load_be : ℕ → Mem → ℕ → ℕ
load_be zero m a = 0
load_be (suc n) m a = m a * 256 ^ n + load_be n m (a + 1)

-- memcpy(&x, ptr + a, n)
abbrev pub load : Bool → ℕ → Mem → ℕ → ℕ
load little n m a = if little then load_le n m a else load_be n m a

-- memcpy(dst + a, src, n) between disjoint ranges
abbrev pub copy : Mem → ℕ → Mem → ℕ → Mem
copy m a src n i = if leb a i && ltb i (a + n) then src (i - a) else m i

-- The `n` bytes at a pointer.
unfoldable pub bytes : Mem → ℕ → List ℕ
bytes m zero = []
bytes m (suc n) = m 0 ∷ bytes (shift m 1) n
