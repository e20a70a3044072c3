-- ===== src/Protocol/Encoder/Payload.antt =====
-- What a message carries of an event, and that each payload method of the decoder recovers it from the
-- payload that the encoder writes.
use vector_tick.Common.{
  ℕ, ◌*◌, ◌/◌, ◌%◌, ◌^◌, ◌≤◌, ◌<◌, Bool, ◌≡◌, refl, ◌∙◌, ap, arith, ◌==◌, if◌then◌else◌, Bool-cases,
  inl, inr, bit_and, bit_or,
}
use vector_tick.Common.Int.{pos}
use vector_tick.Bits.Field.{bit_and-mask, bit_or-add}
use vector_tick.Memory.{Mem, IsBytes}
use vector_tick.Memory.Agree.{Agree}
use vector_tick.Status.{StatusCode, ok}
use vector_tick.Event
use vector_tick.Event.{CanonicalEvent}
use vector_tick.Event.EventType
use vector_tick.Event.Side
use vector_tick.Event.Bounds.{InLimits, validate-InLimits}
use vector_tick.Protocol.Quote
use vector_tick.Protocol.Trade
use vector_tick.Protocol.BookDelta
use vector_tick.Protocol.StatusMessage
use vector_tick.Protocol.Heartbeat
use vector_tick.Protocol.Decoder.{
  decode_quote, decode_trade, decode_book_delta, decode_status, decode_heartbeat,
}
use vector_tick.Protocol.Encoder.{
  quote_payload, trade_payload, book_delta_payload, status_payload, heartbeat_payload,
}

-- An event within the limits of `event::validate`, with a side, whose other numbers fit their types.
pub record Fits (e : CanonicalEvent) : Type 0 where
  pub limits : InLimits e
  pub sequence : e.sequence < 2 ^ 64
  pub flags : e.flags < 2 ^ 16
  pub id : e.trade_or_order_id < 2 ^ 64
  pub sided : e.side ≤ Side.ask

-- What a quote message carries.
abbrev pub quote_view : CanonicalEvent → CanonicalEvent → CanonicalEvent
quote_view e before = record before {
  exchange_ts_ns = e.exchange_ts_ns;
  instrument_id = e.instrument_id;
  event_type = EventType.quote;
  side = e.side;
  flags = 0;
  price_ticks = e.price_ticks;
  quantity = e.quantity;
  venue_id = 0;
  source_id = 0;
  trade_or_order_id = 0;
}

-- What a trade message carries.
abbrev pub trade_view : CanonicalEvent → CanonicalEvent → CanonicalEvent
trade_view e before = record before {
  exchange_ts_ns = e.exchange_ts_ns;
  instrument_id = e.instrument_id;
  event_type = EventType.trade;
  side = e.side;
  flags = 0;
  price_ticks = e.price_ticks;
  quantity = e.quantity;
  venue_id = e.venue_id;
  source_id = e.source_id;
  trade_or_order_id = e.trade_or_order_id;
}

-- What a book delta message carries.
abbrev pub book_delta_view : CanonicalEvent → CanonicalEvent → CanonicalEvent
book_delta_view e before = record before {
  exchange_ts_ns = e.exchange_ts_ns;
  instrument_id = e.instrument_id;
  event_type = EventType.book_delta;
  side = e.side;
  flags = e.flags;
  price_ticks = e.price_ticks;
  quantity = e.quantity;
  venue_id = e.venue_id;
  source_id = e.source_id;
  trade_or_order_id = e.trade_or_order_id;
}

-- What a status message carries.
abbrev pub status_view : CanonicalEvent → CanonicalEvent → CanonicalEvent
status_view e before = record before {
  exchange_ts_ns = e.exchange_ts_ns;
  instrument_id = e.instrument_id;
  event_type = EventType.status;
  side = Side.bid;
  flags = e.flags;
  price_ticks = pos 0;
  quantity = 0;
  venue_id = 0;
  source_id = 0;
  trade_or_order_id = 0;
}

-- What a heartbeat message carries.
abbrev pub heartbeat_view : CanonicalEvent → CanonicalEvent → CanonicalEvent
heartbeat_view e before = record before {
  exchange_ts_ns = e.exchange_ts_ns;
  instrument_id = 0;
  event_type = EventType.heartbeat;
  side = Side.bid;
  flags = 0;
  price_ticks = pos 0;
  quantity = 0;
  venue_id = 0;
  source_id = 0;
  trade_or_order_id = 0;
}

-- An event as expected, within the limits, passes `event::validate`.
checked-InLimits :
    (x view : CanonicalEvent)
    → x ≡ view
    → InLimits view
    → ◌≡◌ {A = CanonicalEvent × StatusCode} (x, Event.validate x) (view, ok)
checked-InLimits x view same l = rw same (ap (λ s. (view, s)) ((validate-InLimits view).1 l))

-- The flags of a status message, packed again.
repacked :
    (n : ℕ) → n < 2 ^ 16 → bit_or (n / 2 ^ 8 % 256 * 2 ^ 8) (bit_and n 0xFF % 256) % 2 ^ 16 ≡ n
repacked n h =
    omega
      (arith, bit_and-mask 8 n, bit_or-add 8 (n / 2 ^ 8 % 256) (bit_and n 0xFF % 256) (omega arith))

module _ (e : CanonicalEvent) (f : Fits e) where
  pub quote_payload-IsValid : Quote.RoundTrip.IsValid (quote_payload e)
  unfolding quote_payload
  quote_payload-IsValid = let l = f.limits in ground arith

  pub trade_payload-IsValid : Trade.RoundTrip.IsValid (trade_payload e)
  unfolding trade_payload
  trade_payload-IsValid = let l = f.limits in ground arith

  pub book_delta_payload-IsValid : BookDelta.RoundTrip.IsValid (book_delta_payload e)
  unfolding book_delta_payload
  book_delta_payload-IsValid = let l = f.limits in ground arith

  pub status_payload-IsValid : StatusMessage.RoundTrip.IsValid (status_payload e)
  unfolding status_payload
  status_payload-IsValid = let l = f.limits in ground arith

  pub heartbeat_payload-IsValid : Heartbeat.RoundTrip.IsValid (heartbeat_payload e)
  unfolding heartbeat_payload
  heartbeat_payload-IsValid = let l = f.limits in ground arith

module _ (writer reader : Bool) (m src : Mem) (e before : CanonicalEvent) (b : IsBytes m)
    (f : Fits e) (time : before.receive_ts_ns ≤ Event.max_timestamp) where
  pub decode_quote-view :
      Agree Quote.size src (Quote.write_to writer m 0 (quote_payload e))
      → decode_quote reader src Quote.size before ≡ (quote_view e before, ok)
  unfolding decode_quote quote_payload
  decode_quote-view same =
      let l = f.limits in rw read (checked-InLimits _ (quote_view e before) sides (ground arith))
    where
      read : Quote.read_from reader src ≡ quote_payload e
      read =
          Quote.Local.read_from-Agree reader Quote.size _ _ same (omega arith)
          ∙ Quote.RoundTrip.read_from-write_to writer reader m (quote_payload e) b
              (quote_payload-IsValid e f)

      p : Quote.QuotePayload
      p = quote_payload e

      sides :
          (if e.side == Side.ask
            then record (quote_view e before) {
              side = Side.ask;
              price_ticks = p.ask_price_ticks;
              quantity = p.ask_quantity;
            }
            else record (quote_view e before) {
              side = Side.bid;
              price_ticks = p.bid_price_ticks;
              quantity = p.bid_quantity;
            })
          ≡ quote_view e before
      sides = elim (Bool-cases (e.side == Side.ask)) [
        | inl asks ↦ rw asks (ap (λ n. record (quote_view e before) { side = n }) (ground arith))
        | inr bids ↦
            rw bids (
              ap (λ n. record (quote_view e before) { side = n }) (let g = f.sided in ground arith))
      ]

  pub decode_trade-view :
      Agree Trade.size src (Trade.write_to writer m 0 (trade_payload e))
      → decode_trade reader src Trade.size before ≡ (trade_view e before, ok)
  unfolding decode_trade trade_payload
  decode_trade-view same =
      let l = f.limits in rw read (checked-InLimits _ (trade_view e before) refl (ground arith))
    where
      read : Trade.read_from reader src ≡ trade_payload e
      read =
          Trade.Local.read_from-Agree reader Trade.size _ _ same (omega arith)
          ∙ Trade.RoundTrip.read_from-write_to writer reader m (trade_payload e) b
              (trade_payload-IsValid e f)

  pub decode_book_delta-view :
      Agree BookDelta.size src (BookDelta.write_to writer m 0 (book_delta_payload e))
      → decode_book_delta reader src BookDelta.size before ≡ (book_delta_view e before, ok)
  unfolding decode_book_delta book_delta_payload
  decode_book_delta-view same =
      let l = f.limits in
      rw read (
        checked-InLimits _ (book_delta_view e before)
          (ap (λ n. record (book_delta_view e before) { flags = n })
            (let g = f.flags in omega arith))
          (ground arith))
    where
      read : BookDelta.read_from reader src ≡ book_delta_payload e
      read =
          BookDelta.Local.read_from-Agree reader BookDelta.size _ _ same (omega arith)
          ∙ BookDelta.RoundTrip.read_from-write_to writer reader m (book_delta_payload e) b
              (book_delta_payload-IsValid e f)

  pub decode_status-view :
      Agree StatusMessage.size src (StatusMessage.write_to writer m 0 (status_payload e))
      → decode_status reader src StatusMessage.size before ≡ (status_view e before, ok)
  unfolding decode_status status_payload
  decode_status-view same =
      let l = f.limits in
      rw read (
        checked-InLimits _ (status_view e before)
          (ap (λ n. record (status_view e before) { flags = n }) (repacked e.flags f.flags))
          (ground arith))
    where
      read : StatusMessage.read_from reader src ≡ status_payload e
      read =
          StatusMessage.Local.read_from-Agree reader StatusMessage.size _ _ same (omega arith)
          ∙ StatusMessage.RoundTrip.read_from-write_to writer reader m (status_payload e) b
              (status_payload-IsValid e f)

  pub decode_heartbeat-view :
      Agree Heartbeat.size src (Heartbeat.write_to writer m 0 (heartbeat_payload e))
      → decode_heartbeat reader src Heartbeat.size before ≡ (heartbeat_view e before, ok)
  unfolding decode_heartbeat heartbeat_payload
  decode_heartbeat-view same = let l = f.limits in rw read
    where
      read : Heartbeat.read_from reader src ≡ heartbeat_payload e
      read =
          Heartbeat.Local.read_from-Agree reader Heartbeat.size _ _ same (omega arith)
          ∙ Heartbeat.RoundTrip.read_from-write_to writer reader m (heartbeat_payload e) b
              (heartbeat_payload-IsValid e f)
