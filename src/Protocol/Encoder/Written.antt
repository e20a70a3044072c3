-- ===== src/Protocol/Encoder/Written.antt =====
-- A payload that `encode_event` writes behind the header, seen from the payload on.
use vector_tick.Common.{Bool, ◌≡◌}
use vector_tick.Memory.{Mem, IsBytes, shift}
use vector_tick.Event.{CanonicalEvent}
use vector_tick.Protocol.Header
use vector_tick.Protocol.Header.{FrameHeader}
use vector_tick.Protocol.Quote
use vector_tick.Protocol.Trade
use vector_tick.Protocol.BookDelta
use vector_tick.Protocol.StatusMessage
use vector_tick.Protocol.Heartbeat
use vector_tick.Protocol.Encoder.{
  quote_payload, trade_payload, book_delta_payload, status_payload, heartbeat_payload,
}
use vector_tick.Protocol.Encoder.Payload.{
  Fits, quote_payload-IsValid, trade_payload-IsValid, book_delta_payload-IsValid,
  status_payload-IsValid, heartbeat_payload-IsValid,
}

-- Writing a payload behind the header, seen from the payload on.
module _ (writer : Bool) (m : Mem) (e : CanonicalEvent) (b : IsBytes m) (f : Fits e) where
  pub quote-IsBytes : IsBytes (Quote.write_to writer m Header.size (quote_payload e))
  quote-IsBytes =
      rw
        (Quote.RoundTrip.write_to-stored writer m Header.size (quote_payload e)
          (quote_payload-IsValid e f))
        (Quote.RoundTrip.stored-IsBytes m Header.size (quote_payload e) b
          (quote_payload-IsValid e f))

  pub quote-shift :
      shift (Quote.write_to writer m Header.size (quote_payload e)) Header.size
      ≡ Quote.write_to writer (shift m Header.size) 0 (quote_payload e)
  quote-shift =
      rw
        (
          Quote.RoundTrip.write_to-stored writer m Header.size (quote_payload e)
              (quote_payload-IsValid e f),
          Quote.RoundTrip.write_to-stored writer (shift m Header.size) 0 (quote_payload e)
              (quote_payload-IsValid e f),
        )
        (Quote.RoundTrip.shift-stored m Header.size (quote_payload e))

  pub trade-IsBytes : IsBytes (Trade.write_to writer m Header.size (trade_payload e))
  trade-IsBytes =
      rw
        (Trade.RoundTrip.write_to-stored writer m Header.size (trade_payload e)
          (trade_payload-IsValid e f))
        (Trade.RoundTrip.stored-IsBytes m Header.size (trade_payload e) b
          (trade_payload-IsValid e f))

  pub trade-shift :
      shift (Trade.write_to writer m Header.size (trade_payload e)) Header.size
      ≡ Trade.write_to writer (shift m Header.size) 0 (trade_payload e)
  trade-shift =
      rw
        (
          Trade.RoundTrip.write_to-stored writer m Header.size (trade_payload e)
              (trade_payload-IsValid e f),
          Trade.RoundTrip.write_to-stored writer (shift m Header.size) 0 (trade_payload e)
              (trade_payload-IsValid e f),
        )
        (Trade.RoundTrip.shift-stored m Header.size (trade_payload e))

  pub book_delta-IsBytes : IsBytes (BookDelta.write_to writer m Header.size (book_delta_payload e))
  book_delta-IsBytes =
      rw
        (BookDelta.RoundTrip.write_to-stored writer m Header.size (book_delta_payload e)
          (book_delta_payload-IsValid e f))
        (BookDelta.RoundTrip.stored-IsBytes m Header.size (book_delta_payload e) b
          (book_delta_payload-IsValid e f))

  pub book_delta-shift :
      shift (BookDelta.write_to writer m Header.size (book_delta_payload e)) Header.size
      ≡ BookDelta.write_to writer (shift m Header.size) 0 (book_delta_payload e)
  book_delta-shift =
      rw
        (
          BookDelta.RoundTrip.write_to-stored writer m Header.size (book_delta_payload e)
              (book_delta_payload-IsValid e f),
          BookDelta.RoundTrip.write_to-stored writer (shift m Header.size) 0 (book_delta_payload e)
              (book_delta_payload-IsValid e f),
        )
        (BookDelta.RoundTrip.shift-stored m Header.size (book_delta_payload e))

  pub status-IsBytes : IsBytes (StatusMessage.write_to writer m Header.size (status_payload e))
  status-IsBytes =
      rw
        (StatusMessage.RoundTrip.write_to-stored writer m Header.size (status_payload e)
          (status_payload-IsValid e f))
        (StatusMessage.RoundTrip.stored-IsBytes m Header.size (status_payload e) b
          (status_payload-IsValid e f))

  pub status-shift :
      shift (StatusMessage.write_to writer m Header.size (status_payload e)) Header.size
      ≡ StatusMessage.write_to writer (shift m Header.size) 0 (status_payload e)
  status-shift =
      rw
        (
          StatusMessage.RoundTrip.write_to-stored writer m Header.size (status_payload e)
              (status_payload-IsValid e f),
          StatusMessage.RoundTrip.write_to-stored writer (shift m Header.size) 0 (status_payload e)
              (status_payload-IsValid e f),
        )
        (StatusMessage.RoundTrip.shift-stored m Header.size (status_payload e))

  pub heartbeat-IsBytes : IsBytes (Heartbeat.write_to writer m Header.size (heartbeat_payload e))
  heartbeat-IsBytes =
      rw
        (Heartbeat.RoundTrip.write_to-stored writer m Header.size (heartbeat_payload e)
          (heartbeat_payload-IsValid e f))
        (Heartbeat.RoundTrip.stored-IsBytes m Header.size (heartbeat_payload e) b
          (heartbeat_payload-IsValid e f))

  pub heartbeat-shift :
      shift (Heartbeat.write_to writer m Header.size (heartbeat_payload e)) Header.size
      ≡ Heartbeat.write_to writer (shift m Header.size) 0 (heartbeat_payload e)
  heartbeat-shift =
      rw
        (
          Heartbeat.RoundTrip.write_to-stored writer m Header.size (heartbeat_payload e)
              (heartbeat_payload-IsValid e f),
          Heartbeat.RoundTrip.write_to-stored writer (shift m Header.size) 0 (heartbeat_payload e)
              (heartbeat_payload-IsValid e f),
        )
        (Heartbeat.RoundTrip.shift-stored m Header.size (heartbeat_payload e))
