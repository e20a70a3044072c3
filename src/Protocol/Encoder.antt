-- ===== src/Protocol/Encoder.antt =====
-- src/protocol/decoder.cpp and include/vectortick/protocol/decoder.hpp: class Encoder. Each method
-- returns the encoder, the buffer and its result.
pub mod Payload
pub mod Written
pub mod Delivery
pub mod RoundTrip
use vector_tick.Common.{
  ℕ, ◌+◌, ◌/◌, ◌%◌, ◌^◌, Bool, Option, none, some, ltb, ◌==◌, if◌then◌else◌, bit_and,
}
use vector_tick.Common.Int.{pos}
use vector_tick.Memory.{Mem, shift}
use vector_tick.Status.{Result, value, error, invalid_message_type, buffer_too_small}
use vector_tick.Crc32c.Checksum.{Checksum}
use vector_tick.Event.{CanonicalEvent}
use vector_tick.Event.EventType
use vector_tick.Event.Side
use vector_tick.Protocol.MessageType
use vector_tick.Protocol.Header
use vector_tick.Protocol.Frame
use vector_tick.Protocol.Metadata
use vector_tick.Protocol.Metadata.{StreamMetadata}
use vector_tick.Protocol.Quote
use vector_tick.Protocol.Quote.{QuotePayload}
use vector_tick.Protocol.Trade
use vector_tick.Protocol.Trade.{TradePayload}
use vector_tick.Protocol.BookDelta
use vector_tick.Protocol.BookDelta.{BookDeltaPayload}
use vector_tick.Protocol.StatusMessage
use vector_tick.Protocol.StatusMessage.{StatusPayload}
use vector_tick.Protocol.Heartbeat
use vector_tick.Protocol.Heartbeat.{HeartbeatPayload}

pub record Encoder : Type 0 where
  pub frames_encoded : ℕ
  pub encode_errors : ℕ

abbrev count_frame : Encoder → Encoder
count_frame e = record e { frames_encoded = (e.frames_encoded + 1) % 2 ^ 64 }

abbrev count_error : Encoder → Encoder
count_error e = record e { encode_errors = (e.encode_errors + 1) % 2 ^ 64 }

-- The payload of each event type, as the second switch of `encode_event` fills it in.
unfoldable pub quote_payload : CanonicalEvent → QuotePayload
quote_payload event =
    let asks = event.side == Side.ask in
    record {
      exchange_ts_ns = event.exchange_ts_ns;
      instrument_id = event.instrument_id;
      side = event.side;
      reserved0 = 0;
      reserved1 = 0;
      reserved2 = 0;
      bid_price_ticks = if asks then pos 0 else event.price_ticks;
      bid_quantity = if asks then 0 else event.quantity;
      ask_price_ticks = if asks then event.price_ticks else pos 0;
      ask_quantity = if asks then event.quantity else 0;
    }

unfoldable pub trade_payload : CanonicalEvent → TradePayload
trade_payload event = record {
  exchange_ts_ns = event.exchange_ts_ns;
  instrument_id = event.instrument_id;
  side = event.side;
  reserved0 = 0;
  reserved1 = 0;
  reserved2 = 0;
  price_ticks = event.price_ticks;
  quantity = event.quantity;
  trade_id = event.trade_or_order_id;
  venue_id = event.venue_id;
  source_id = event.source_id;
}

unfoldable pub book_delta_payload : CanonicalEvent → BookDeltaPayload
book_delta_payload event = record {
  exchange_ts_ns = event.exchange_ts_ns;
  instrument_id = event.instrument_id;
  side = event.side;
  level = 0;
  operation = 1;
  reserved = 0;
  price_ticks = event.price_ticks;
  quantity = event.quantity;
  order_id = event.trade_or_order_id;
  venue_id = event.venue_id;
  source_id = event.source_id;
  flags = event.flags;
}

unfoldable pub status_payload : CanonicalEvent → StatusPayload
status_payload event = record {
  exchange_ts_ns = event.exchange_ts_ns;
  instrument_id = event.instrument_id;
  status = event.flags / 2 ^ 8 % 256;
  reason = bit_and event.flags 0xFF % 256;
  reserved = 0;
}

unfoldable pub heartbeat_payload : CanonicalEvent → HeartbeatPayload
heartbeat_payload event = record { exchange_ts_ns = event.exchange_ts_ns }

-- The first switch of `encode_event`: message type and payload size.
unfoldable pub message_of : ℕ → Option (ℕ × ℕ)
message_of event_type =
    if event_type == EventType.quote
    then some (MessageType.quote, Quote.size)
    else (if event_type == EventType.trade
        then some (MessageType.trade, Trade.size)
        else (if event_type == EventType.book_delta
            then some (MessageType.book_delta, BookDelta.size)
            else (if event_type == EventType.status
                then some (MessageType.status, StatusMessage.size)
                else (if event_type == EventType.heartbeat
                    then some (MessageType.heartbeat, Heartbeat.size)
                    else none))))

-- What a call changes and returns.
abbrev pub Outcome : Type 0
Outcome = Encoder × Mem × Result ℕ

module _ (k : Checksum) (little : Bool) where
  -- The second switch of `encode_event`, writing through `ptr + a`.
  unfoldable pub write_payload : CanonicalEvent → Mem → ℕ → Mem
  write_payload event m a =
      if event.event_type == EventType.quote
      then Quote.write_to little m a (quote_payload event)
      else (if event.event_type == EventType.trade
          then Trade.write_to little m a (trade_payload event)
          else (if event.event_type == EventType.book_delta
              then BookDelta.write_to little m a (book_delta_payload event)
              else (if event.event_type == EventType.status
                  then StatusMessage.write_to little m a (status_payload event)
                  else (if event.event_type == EventType.heartbeat
                      then Heartbeat.write_to little m a (heartbeat_payload event)
                      else m))))

  -- From the payload on: write it, then the frame around it.
  unfoldable pub encode_message : Encoder → CanonicalEvent → Mem → ℕ → ℕ → ℕ → ℕ → Outcome
  unfolding write_payload
  encode_message e event buffer buffer_size session_id msg_type payload_size =
      let total_size = Header.size + payload_size in
      let filled = write_payload event buffer Header.size in
      let framed =
        Frame.write_frame k little filled msg_type 0 session_id event.sequence event.exchange_ts_ns
          (some (shift filled Header.size)) payload_size in
      if ltb buffer_size total_size
      then (count_error e, buffer, error buffer_too_small)
      else (count_frame e, framed, value total_size)

  abbrev encode_as : Encoder → CanonicalEvent → Mem → ℕ → ℕ → Option (ℕ × ℕ) → Outcome
  encode_as e event buffer buffer_size session_id none =
      (count_error e, buffer, error invalid_message_type)
  encode_as e event buffer buffer_size session_id (some (msg_type, payload_size)) =
      encode_message e event buffer buffer_size session_id msg_type payload_size

  unfoldable pub encode_event : Encoder → CanonicalEvent → Mem → ℕ → ℕ → Outcome
  unfolding message_of
  encode_event e event buffer buffer_size session_id =
      encode_as e event buffer buffer_size session_id (message_of event.event_type)

  -- Unlike `encode_event`, the other two do not count an error.
  unfoldable pub encode_metadata : Encoder → StreamMetadata → Mem → ℕ → ℕ → ℕ → Outcome
  encode_metadata e metadata buffer buffer_size session_id sequence =
      let total_size = Header.size + Metadata.size in
      let filled = Metadata.write_to little buffer Header.size metadata in
      let framed =
        Frame.write_frame k little filled MessageType.stream_metadata 0 session_id sequence
          metadata.start_time_ns (some (shift filled Header.size)) Metadata.size in
      if ltb buffer_size total_size
      then (e, buffer, error buffer_too_small)
      else (count_frame e, framed, value total_size)

  unfoldable pub encode_end_of_stream : Encoder → Mem → ℕ → ℕ → ℕ → ℕ → Outcome
  encode_end_of_stream e buffer buffer_size session_id sequence timestamp =
      let framed =
        Frame.write_frame k little buffer MessageType.end_of_stream 0 session_id sequence timestamp
          none 0 in
      if ltb buffer_size Header.size
      then (e, buffer, error buffer_too_small)
      else (count_frame e, framed, value Header.size)
