-- ===== src/Query/Columns.antt =====
-- src/ir/builder.cpp: resolve_column_info, with the columns that the interpreter reads, against the table
-- of the columns.
use vector_tick.Common.{
  ℕ, Bool, true, false, ◌||◌, Option, none, some, if◌then◌else◌, ◌≡◌, refl, arith, ◌∙◌, ap, ap₂,
  ◌&&◌, ◌==◌, map, List, [], ◌∷◌,
}
use vector_tick.Common.Int.{to_u64}
use Prim.Native.String.{String}
use vector_tick.Event.{CanonicalEvent}
use vector_tick.Query.{Name, codes, same_name, to_upper}
use vector_tick.Query.Meaning.{Column, column, first_column, is_named, is_spelled, small_letter}
use vector_tick.Ir.{ValueType}
use vector_tick.Interpreter.{load_column_value}
use vector_tick.Builder.Columns.{resolve_column_info, column_id_or_zero, column_type_or_u64, ieq}
use vector_tick.Builder.Emit.{is_i64}

-- What the code resolves a name to is read and typed as a column.
pub record Describes (info : Option (ℕ × ValueType)) (c : Column) : Type 0 where
  pub reads :
      (event : CanonicalEvent) → load_column_value (column_id_or_zero info) event ≡ c.read event
  pub types : is_i64 (column_type_or_u64 info) ≡ c.signed

-- Letters agree in upper case exactly if they agree in lower case.
upper-small : (x y : ℕ) → to_upper x == to_upper y ≡ small_letter x == small_letter y
unfolding to_upper
upper-small x y = ground arith

ieq-is_spelled : (a b : Name) → same_name (map to_upper a) (map to_upper b) ≡ is_spelled a b
unfolding same_name
ieq-is_spelled [] [] = refl
ieq-is_spelled [] (y ∷ b) = refl
ieq-is_spelled (x ∷ a) [] = refl
ieq-is_spelled (x ∷ a) (y ∷ b) = ap₂ ◌&&◌ (upper-small x y) (ieq-is_spelled a b)

or_one : (b : Bool) → b ≡ (b || false)
or_one true = refl
or_one false = refl

or_two : (a b : Bool) → (a || b) ≡ (a || (b || false))
or_two true b = refl
or_two false b = or_one b

or_three : (a b c : Bool) → (a || b || c) ≡ (a || (b || (c || false)))
or_three true b c = refl
or_three false b c = or_two b c

choice :
    (a b : Bool) (i j : Option (ℕ × ValueType)) (c d : Column)
    → a ≡ b
    → Describes i c
    → Describes j d
    → Describes (if a then i else j) (if b then c else d)
choice a true i j c d e p q = rw e p
choice a false i j c d e p q = rw e q

-- A column of one, two or three names.
module _ (name : Name) (id : ℕ) (type : ValueType) (read : CanonicalEvent → ℕ)
    (reads : (event : CanonicalEvent) → load_column_value id event ≡ read event)
    {j : Option (ℕ × ValueType)} {d : Column} (others : Describes j d) where
  abbrev entry : List String → Column
  entry names = record { names = names; read = read; signed = is_i64 type }

  abbrev Next : Bool → List String → Type 0
  Next asked names =
      Describes (if asked then some (id, type) else j)
        (if is_named name names then entry names else d)

  here : (names : List String) → Describes (some (id, type)) (entry names)
  here names = record { reads = reads; types = refl }

  same : (x : String) → ieq name x ≡ is_spelled name (codes x)
  same x = ieq-is_spelled name (codes x)

  one_name : (x : String) → Next (ieq name x) (x ∷ [])
  one_name x =
      choice _ _ _ _ _ _ (or_one (ieq name x) ∙ ap (λ b. b || false) (same x)) (here (x ∷ []))
        others

  two_names : (x y : String) → Next (ieq name x || ieq name y) (x ∷ y ∷ [])
  two_names x y =
      choice _ _ _ _ _ _
        (or_two (ieq name x) (ieq name y) ∙ ap₂ ◌||◌ (same x) (ap (λ b. b || false) (same y)))
        (here (x ∷ y ∷ [])) others

  three_names : (x y z : String) → Next (ieq name x || ieq name y || ieq name z) (x ∷ y ∷ z ∷ [])
  three_names x y z =
      choice _ _ _ _ _ _
        (or_three (ieq name x) (ieq name y) (ieq name z)
          ∙ ap₂ ◌||◌ (same x) (ap₂ ◌||◌ (same y) (ap (λ b. b || false) (same z))))
        (here (x ∷ y ∷ z ∷ [])) others

no_column : Describes none first_column
unfolding load_column_value
no_column = record { reads = λ event. refl; types = refl }

-- Every name is resolved to its column.
pub resolve_column_info-Describes :
    (name : Name) → Describes (resolve_column_info name) (column name)
unfolding resolve_column_info column load_column_value
resolve_column_info-Describes name =
    let c11 =
      three_names name 11 ValueType.u64 (λ ev. ev.trade_or_order_id) (λ ev. refl) no_column
        "trade_or_order_id" "trade_id" "order_id" in
    let c10 =
      two_names name 10 ValueType.u16 (λ ev. ev.source_id) (λ ev. refl) c11 "source_id" "source" in
    let c9 =
      two_names name 9 ValueType.u16 (λ ev. ev.venue_id) (λ ev. refl) c10 "venue_id" "venue" in
    let c8 = two_names name 8 ValueType.u32 (λ ev. ev.quantity) (λ ev. refl) c9 "quantity" "qty" in
    let c7 =
      two_names name 7 ValueType.i64 (λ ev. to_u64 ev.price_ticks) (λ ev. refl) c8 "price_ticks"
        "price" in
    let c6 = one_name name 6 ValueType.u16 (λ ev. ev.flags) (λ ev. refl) c7 "flags" in
    let c5 = one_name name 5 ValueType.u8 (λ ev. ev.side) (λ ev. refl) c6 "side" in
    let c4 = one_name name 4 ValueType.u8 (λ ev. ev.event_type) (λ ev. refl) c5 "event_type" in
    let c3 =
      three_names name 3 ValueType.u32 (λ ev. ev.instrument_id) (λ ev. refl) c4 "instrument_id"
        "symbol" "instrument" in
    let c2 = two_names name 2 ValueType.u64 (λ ev. ev.sequence) (λ ev. refl) c3 "sequence" "seq" in
    let c1 =
      two_names name 1 ValueType.u64 (λ ev. ev.receive_ts_ns) (λ ev. refl) c2 "receive_ts_ns"
        "receive_ts" in
    two_names name 0 ValueType.u64 (λ ev. ev.exchange_ts_ns) (λ ev. refl) c1 "exchange_ts_ns"
      "exchange_ts"
