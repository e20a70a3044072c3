-- ===== src/Builder/Columns.antt =====
-- src/ir/builder.cpp: resolve_column_info.
use vector_tick.Common.{ℕ, Bool, Option, none, some, ◌||◌, if◌then◌else◌, map}
use vector_tick.Query.{Name, codes, to_upper, same_name}
use vector_tick.Ir.{ValueType}
use Prim.Native.String.{String}

-- `ieq`
abbrev pub ieq : Name → String → Bool
ieq a b = same_name (map to_upper a) (map to_upper (codes b))

unfoldable pub resolve_column_info : Name → Option (ℕ × ValueType)
resolve_column_info name =
    if ieq name "exchange_ts_ns" || ieq name "exchange_ts"
    then some (0, ValueType.u64)
    else (if ieq name "receive_ts_ns" || ieq name "receive_ts"
        then some (1, ValueType.u64)
        else (if ieq name "sequence" || ieq name "seq"
            then some (2, ValueType.u64)
            else (if ieq name "instrument_id" || ieq name "symbol" || ieq name "instrument"
                then some (3, ValueType.u32)
                else (if ieq name "event_type"
                    then some (4, ValueType.u8)
                    else (if ieq name "side"
                        then some (5, ValueType.u8)
                        else (if ieq name "flags"
                            then some (6, ValueType.u16)
                            else (if ieq name "price_ticks" || ieq name "price"
                                then some (7, ValueType.i64)
                                else (if ieq name "quantity" || ieq name "qty"
                                    then some (8, ValueType.u32)
                                    else (if ieq name "venue_id" || ieq name "venue"
                                        then some (9, ValueType.u16)
                                        else (if ieq name "source_id" || ieq name "source"
                                            then some (10, ValueType.u16)
                                            else (if ieq name "trade_or_order_id"
                                                  || ieq name "trade_id"
                                                  || ieq name "order_id"
                                                then some (11, ValueType.u64)
                                                else none)))))))))))

-- The caller's defaults, for a name that is no column.
abbrev pub column_id_or_zero : Option (ℕ × ValueType) → ℕ
column_id_or_zero none = 0
column_id_or_zero (some (id, type)) = id

abbrev pub column_type_or_u64 : Option (ℕ × ValueType) → ValueType
column_type_or_u64 none = ValueType.u64
column_type_or_u64 (some (id, type)) = type
