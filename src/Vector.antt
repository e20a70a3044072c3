-- ===== src/Vector.antt =====
-- src/execution/vector_executor.cpp: batches of columns and the kernels of SimdDispatcher on a selection,
-- in their portable form. A selection is the list of the indices up to its count.
pub mod Filter
pub mod Scan
use vector_tick.Common.{
  ℕ, zero, suc, ◌+◌, ◌%◌, ◌^◌, Bool, true, false, Option, none, some, List, [], ◌∷◌, ltb, ◌==◌,
  if◌then◌else◌, min, get_elem?,
}
use vector_tick.Common.Int.{ℤ, pos, ltb_ℤ}
use vector_tick.CheckedMath.{◌+ℤ◌}
use vector_tick.Event.{CanonicalEvent}
use vector_tick.Interpreter.Aggregate.{fits_i64}
use vector_tick.Interpreter.Arithmetic.{Run, done, undefined}

abbrev pub Selection : Type 0
Selection = List ℕ

abbrev pub max_batch_size : ℕ
max_batch_size = 1024

-- The indices from `i` on, `n` of them.
unfoldable pub indices_from : ℕ → ℕ → Selection
indices_from i zero = []
indices_from i (suc n) = i % 2 ^ 16 ∷ indices_from (i + 1) n

-- SelectionVector::init_all
unfoldable pub init_all : ℕ → Selection
unfolding indices_from
init_all n = indices_from 0 (min n max_batch_size)

-- Arrays are functions of the index.
pub record ColumnBatch : Type 0 where
  pub size : ℕ
  pub exchange_ts_ns : ℕ → ℕ
  pub receive_ts_ns : ℕ → ℕ
  pub sequence : ℕ → ℕ
  pub instrument_id : ℕ → ℕ
  pub event_type : ℕ → ℕ
  pub side : ℕ → ℕ
  pub flags : ℕ → ℕ
  pub price_ticks : ℕ → ℤ
  pub quantity : ℕ → ℕ
  pub venue_id : ℕ → ℕ
  pub source_id : ℕ → ℕ
  pub trade_or_order_id : ℕ → ℕ

abbrev loaded {ℓ} : {A : Type ℓ} → Option CanonicalEvent → (CanonicalEvent → A) → A → A
loaded none field old = old
loaded (some ev) field old = field ev

-- A column after the loop: what `field` reads of the events from `start_row` on, and behind `count` what
-- was there.
abbrev load_column {ℓ} :
    {A : Type ℓ} → List CanonicalEvent → ℕ → ℕ → (CanonicalEvent → A) → (ℕ → A) → ℕ → A
load_column events start_row count field old i =
    if ltb i count then loaded (get_elem? events (start_row + i)) field (old i) else old i

-- VectorExecutor::load_batch_from_events; its callers keep within the events.
unfoldable pub load_batch_from_events : List CanonicalEvent → ℕ → ℕ → ColumnBatch → ColumnBatch
load_batch_from_events events start_row count batch = record {
  size = count;
  exchange_ts_ns =
      load_column events start_row count (λ ev. ev.exchange_ts_ns) batch.exchange_ts_ns;
  receive_ts_ns = load_column events start_row count (λ ev. ev.receive_ts_ns) batch.receive_ts_ns;
  sequence = load_column events start_row count (λ ev. ev.sequence) batch.sequence;
  instrument_id = load_column events start_row count (λ ev. ev.instrument_id) batch.instrument_id;
  event_type = load_column events start_row count (λ ev. ev.event_type) batch.event_type;
  side = load_column events start_row count (λ ev. ev.side) batch.side;
  flags = load_column events start_row count (λ ev. ev.flags) batch.flags;
  price_ticks = load_column events start_row count (λ ev. ev.price_ticks) batch.price_ticks;
  quantity = load_column events start_row count (λ ev. ev.quantity) batch.quantity;
  venue_id = load_column events start_row count (λ ev. ev.venue_id) batch.venue_id;
  source_id = load_column events start_row count (λ ev. ev.source_id) batch.source_id;
  trade_or_order_id =
      load_column events start_row count (λ ev. ev.trade_or_order_id) batch.trade_or_order_id;
}

-- The loop of the filters: the selected indices that pass.
unfoldable pub filter_loop : (ℕ → Bool) → Selection → Selection
filter_loop match [] = []
filter_loop match (idx ∷ in_sel) =
    let rest = filter_loop match in_sel in if match idx then idx ∷ rest else rest

abbrev pub filter_gt_i64 : (ℕ → ℤ) → ℤ → Selection → Selection
filter_gt_i64 data_of threshold in_sel = filter_loop (λ idx. ltb_ℤ threshold (data_of idx)) in_sel

abbrev pub filter_lt_i64 : (ℕ → ℤ) → ℤ → Selection → Selection
filter_lt_i64 data_of threshold in_sel = filter_loop (λ idx. ltb_ℤ (data_of idx) threshold) in_sel

abbrev pub filter_eq_u32 : (ℕ → ℕ) → ℕ → Selection → Selection
filter_eq_u32 data_of val in_sel = filter_loop (λ idx. data_of idx == val) in_sel

abbrev pub filter_eq_u16 : (ℕ → ℕ) → ℕ → Selection → Selection
filter_eq_u16 data_of val in_sel = filter_loop (λ idx. data_of idx == val) in_sel

-- The sum from `total` on; a signed addition that overflows is undefined.
unfoldable pub sum_i64_loop : (ℕ → ℤ) → Selection → ℤ → Run ℤ
sum_i64_loop data_of [] total = done total
sum_i64_loop data_of (idx ∷ sel) total =
    let next = total +ℤ data_of idx in
    let rest = sum_i64_loop data_of sel next in if fits_i64 next then rest else undefined

abbrev pub sum_i64 : (ℕ → ℤ) → Selection → Run ℤ
sum_i64 data_of sel = sum_i64_loop data_of sel (pos 0)

unfoldable pub min_i64_loop : (ℕ → ℤ) → Selection → ℤ → ℤ
min_i64_loop data_of [] res = res
min_i64_loop data_of (idx ∷ sel) res =
    min_i64_loop data_of sel (if ltb_ℤ (data_of idx) res then data_of idx else res)

abbrev pub min_i64 : (ℕ → ℤ) → Selection → ℤ
min_i64 data_of [] = pos 0
min_i64 data_of (idx ∷ sel) = min_i64_loop data_of sel (data_of idx)

unfoldable pub max_i64_loop : (ℕ → ℤ) → Selection → ℤ → ℤ
max_i64_loop data_of [] res = res
max_i64_loop data_of (idx ∷ sel) res =
    max_i64_loop data_of sel (if ltb_ℤ res (data_of idx) then data_of idx else res)

abbrev pub max_i64 : (ℕ → ℤ) → Selection → ℤ
max_i64 data_of [] = pos 0
max_i64 data_of (idx ∷ sel) = max_i64_loop data_of sel (data_of idx)

unfoldable pub sum_u32_loop : (ℕ → ℕ) → Selection → ℕ → ℕ
sum_u32_loop data_of [] total = total
sum_u32_loop data_of (idx ∷ sel) total = sum_u32_loop data_of sel ((total + data_of idx) % 2 ^ 64)

abbrev pub sum_u32 : (ℕ → ℕ) → Selection → ℕ
sum_u32 data_of sel = sum_u32_loop data_of sel 0

unfoldable pub min_u32_loop : (ℕ → ℕ) → Selection → ℕ → ℕ
min_u32_loop data_of [] res = res
min_u32_loop data_of (idx ∷ sel) res =
    min_u32_loop data_of sel (if ltb (data_of idx) res then data_of idx else res)

abbrev pub min_u32 : (ℕ → ℕ) → Selection → ℕ
min_u32 data_of [] = 0
min_u32 data_of (idx ∷ sel) = min_u32_loop data_of sel (data_of idx)

unfoldable pub max_u32_loop : (ℕ → ℕ) → Selection → ℕ → ℕ
max_u32_loop data_of [] res = res
max_u32_loop data_of (idx ∷ sel) res =
    max_u32_loop data_of sel (if ltb res (data_of idx) then data_of idx else res)

abbrev pub max_u32 : (ℕ → ℕ) → Selection → ℕ
max_u32 data_of [] = 0
max_u32 data_of (idx ∷ sel) = max_u32_loop data_of sel (data_of idx)
