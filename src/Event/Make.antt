-- ===== src/Event/Make.antt =====
-- include/vectortick/model/event.hpp: the functions that make events.
use vector_tick.Common.{ℕ, refl, ◌%◌, ◌^◌, ◌≤◌, ◌<◌, ◌≡◌, ◌↔◌, arith}
use vector_tick.Common.Int.{ℤ, pos}
use vector_tick.Status.{ok}
use vector_tick.Event.{CanonicalEvent, validate, max_timestamp, max_sources}
use vector_tick.Event.EventType
use vector_tick.Event.Side

abbrev pub make_empty_event : CanonicalEvent
make_empty_event = record {
  exchange_ts_ns = 0;
  receive_ts_ns = 0;
  sequence = 0;
  instrument_id = 0;
  event_type = EventType.invalid;
  side = Side.invalid;
  flags = 0;
  price_ticks = pos 0;
  quantity = 0;
  venue_id = 0;
  source_id = 0;
  trade_or_order_id = 0;
}

unfoldable pub make_heartbeat : ℕ → ℕ → CanonicalEvent
make_heartbeat ts_ns source = record {
  exchange_ts_ns = ts_ns;
  receive_ts_ns = ts_ns;
  sequence = 0;
  instrument_id = 0;
  event_type = EventType.heartbeat;
  side = Side.invalid;
  flags = 0;
  price_ticks = pos 0;
  quantity = 0;
  venue_id = 0;
  source_id = source % 2 ^ 16;
  trade_or_order_id = 0;
}

module _ (exchange_ts receive_ts seq inst side : ℕ) (price : ℤ) (qty id venue source : ℕ) where
  unfoldable pub make_trade : CanonicalEvent
  make_trade = record {
    exchange_ts_ns = exchange_ts;
    receive_ts_ns = receive_ts;
    sequence = seq;
    instrument_id = inst;
    event_type = EventType.trade;
    side = side;
    flags = 0;
    price_ticks = price;
    quantity = qty;
    venue_id = venue;
    source_id = source;
    trade_or_order_id = id;
  }

  unfoldable pub make_quote : CanonicalEvent
  make_quote = record {
    exchange_ts_ns = exchange_ts;
    receive_ts_ns = receive_ts;
    sequence = seq;
    instrument_id = inst;
    event_type = EventType.quote;
    side = side;
    flags = 0;
    price_ticks = price;
    quantity = qty;
    venue_id = venue;
    source_id = source;
    trade_or_order_id = id;
  }

  -- Trades and quotes are valid for the same arguments.
  pub validate-make_trade : validate make_trade ≡ validate make_quote
  unfolding make_trade make_quote validate
  validate-make_trade = refl

-- A heartbeat is valid exactly when its time is within the limit and its source, cut to sixteen bits,
-- is a known one.
pub validate-make_heartbeat :
    (ts_ns source : ℕ)
    → (validate (make_heartbeat ts_ns source) ≡ ok)
      ↔ ((ts_ns ≤ max_timestamp) × (source % 2 ^ 16 < max_sources))
unfolding make_heartbeat validate
validate-make_heartbeat ts_ns source = (λ e. ground arith, λ e. ground arith)
