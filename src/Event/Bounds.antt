-- ===== src/Event/Bounds.antt =====
-- What `validate` accepts.
use vector_tick.Common.{◌≤◌, ◌<◌, ◌⊎◌, ◌↔◌, ◌≡◌, arith}
use vector_tick.Common.Int.{◌≤ℤ◌}
use vector_tick.Status.{ok}
use vector_tick.Event.EventType
use vector_tick.Event.Side
use vector_tick.Event.{
  CanonicalEvent, validate, max_timestamp, max_instruments, max_price, min_price, max_quantity,
  max_venues, max_sources,
}

-- Every field within its limit.
pub record InLimits (e : CanonicalEvent) : Type 0 where
  pub kind : e.event_type ≤ EventType.heartbeat
  pub sided : (e.event_type ≡ EventType.heartbeat) ⊎ (e.side ≤ Side.ask)
  pub exchange_time : e.exchange_ts_ns ≤ max_timestamp
  pub receive_time : e.receive_ts_ns ≤ max_timestamp
  pub instrument : e.instrument_id < max_instruments
  pub lowest_price : min_price ≤ℤ e.price_ticks
  pub highest_price : e.price_ticks ≤ℤ max_price
  pub lots : e.quantity ≤ max_quantity
  pub venue : e.venue_id < max_venues
  pub source : e.source_id < max_sources

-- `event::validate` answers OK exactly on the events with a known type, a side unless they are a
-- heartbeat, and times, instrument, price, quantity, venue and source within their limits.
pub validate-InLimits : (e : CanonicalEvent) → (validate e ≡ ok) ↔ InLimits e
unfolding validate
validate-InLimits e = (λ h. ground arith, λ v. ground arith)
