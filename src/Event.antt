-- ===== src/Event.antt =====
-- include/vectortick/common/types.hpp and model/event.hpp: the canonical event and its validation.
-- EventType and Side are enums over u8 that a cast fills with any byte, so they are numbers here.
pub mod EventType
pub mod Side
pub mod Bounds
pub mod Make
use vector_tick.Common.{ℕ, ltb, leb, ◌==◌, if◌then◌else◌, Bool, true, false, ◌&&◌, ◌||◌, not}
use vector_tick.Common.Int.{ℤ, pos, negsuc, ltb_ℤ}
use vector_tick.Status.{StatusCode, ok, invalid_payload, invalid_timestamp}

pub record CanonicalEvent : Type 0 where
  pub exchange_ts_ns : ℕ
  pub receive_ts_ns : ℕ
  pub sequence : ℕ
  pub instrument_id : ℕ
  pub event_type : ℕ
  pub side : ℕ
  pub flags : ℕ
  pub price_ticks : ℤ
  pub quantity : ℕ
  pub venue_id : ℕ
  pub source_id : ℕ
  pub trade_or_order_id : ℕ

-- struct Limits
abbrev pub max_payload_length : ℕ
max_payload_length = 65535

abbrev pub max_instruments : ℕ
max_instruments = 16384

abbrev pub max_venues : ℕ
max_venues = 256

abbrev pub max_sources : ℕ
max_sources = 256

abbrev pub max_timestamp : ℕ
max_timestamp = 2534023007990000000

abbrev pub max_price : ℤ
max_price = pos 1000000000000

-- `-Limits::MaxPrice`
abbrev pub min_price : ℤ
min_price = negsuc 999999999999

abbrev pub max_quantity : ℕ
max_quantity = 1000000000

-- CanonicalEvent::is_valid
unfoldable pub is_valid : CanonicalEvent → Bool
is_valid e =
    if e.event_type == EventType.invalid
    then false
    else (if e.side == Side.invalid && not (e.event_type == EventType.heartbeat)
        then false
        else true)

-- event::validate
unfoldable pub validate : CanonicalEvent → StatusCode
validate e =
    if ltb EventType.heartbeat e.event_type
    then invalid_payload
    else (if not (e.event_type == EventType.heartbeat) && ltb Side.ask e.side
        then invalid_payload
        else (if ltb max_timestamp e.exchange_ts_ns
            then invalid_timestamp
            else (if ltb max_timestamp e.receive_ts_ns
                then invalid_timestamp
                else (if leb max_instruments e.instrument_id
                    then invalid_payload
                    else (if ltb_ℤ e.price_ticks min_price || ltb_ℤ max_price e.price_ticks
                        then invalid_payload
                        else (if ltb max_quantity e.quantity
                            then invalid_payload
                            else (if leb max_venues e.venue_id
                                then invalid_payload
                                else (if leb max_sources e.source_id
                                    then invalid_payload
                                    else ok))))))))
