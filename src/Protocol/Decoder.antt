-- ===== src/Protocol/Decoder.antt =====
-- src/protocol/decoder.cpp and include/vectortick/protocol/decoder.hpp: class Decoder. Each decoding
-- method returns the event that it fills in beside its status.
pub mod Steps
pub mod Failure
use vector_tick.Common.{
  ℕ, ◌+◌, ◌*◌, ◌%◌, ◌^◌, Bool, Option, none, some, ltb, leb, ◌==◌, if◌then◌else◌, ◌&&◌, not, bit_or,
}
use vector_tick.Common.Int.{pos}
use vector_tick.Memory.{Mem}
use vector_tick.Status.{
  StatusCode, ok, Result, value, error, is_ok, invalid_payload, truncated_frame,
  sequence_not_monotonic, invalid_message_type,
}
use vector_tick.Crc32c.Checksum.{Checksum}
use vector_tick.Event.{CanonicalEvent}
use vector_tick.Event
use vector_tick.Event.EventType
use vector_tick.Event.Side
use vector_tick.Protocol.MessageType
use vector_tick.Protocol.Header.{FrameHeader}
use vector_tick.Protocol.Frame
use vector_tick.Protocol.Quote
use vector_tick.Protocol.Trade
use vector_tick.Protocol.BookDelta
use vector_tick.Protocol.StatusMessage
use vector_tick.Protocol.Heartbeat

pub record Decoder : Type 0 where
  pub last_session_id : ℕ
  pub last_sequence : ℕ
  pub frames_decoded : ℕ
  pub decode_errors : ℕ

abbrev pub fresh : Decoder
fresh = record { last_session_id = 0; last_sequence = 0; frames_decoded = 0; decode_errors = 0 }

unfoldable pub reset : Decoder → Decoder
reset d = record d { last_session_id = 0; last_sequence = 0 }

-- `decode_errors_++` and `frames_decoded_++`
abbrev pub count_error : Decoder → Decoder
count_error d = record d { decode_errors = (d.decode_errors + 1) % 2 ^ 64 }

abbrev pub count_frame : Decoder → Decoder
count_frame d = record d { frames_decoded = (d.frames_decoded + 1) % 2 ^ 64 }

-- A filled-in event with the answer of `event::validate`.
abbrev checked : CanonicalEvent → CanonicalEvent × StatusCode
checked e = (e, Event.validate e)

module _ (little : Bool) where
  unfoldable pub decode_quote : Mem → ℕ → CanonicalEvent → CanonicalEvent × StatusCode
  decode_quote payload len event =
      let quote = Quote.read_from little payload in
      let common = record event {
        exchange_ts_ns = quote.exchange_ts_ns;
        instrument_id = quote.instrument_id;
        event_type = EventType.quote;
        flags = 0;
        venue_id = 0;
        source_id = 0;
        trade_or_order_id = 0;
      } in
      if ltb len Quote.size
      then (event, invalid_payload)
      else checked (
          if quote.side == Side.ask
          then record common {
            side = Side.ask;
            price_ticks = quote.ask_price_ticks;
            quantity = quote.ask_quantity;
          }
          else record common {
            side = Side.bid;
            price_ticks = quote.bid_price_ticks;
            quantity = quote.bid_quantity;
          })

  unfoldable pub decode_trade : Mem → ℕ → CanonicalEvent → CanonicalEvent × StatusCode
  decode_trade payload len event =
      let trade = Trade.read_from little payload in
      if ltb len Trade.size
      then (event, invalid_payload)
      else checked (record event {
        exchange_ts_ns = trade.exchange_ts_ns;
        instrument_id = trade.instrument_id;
        event_type = EventType.trade;
        side = trade.side;
        flags = 0;
        price_ticks = trade.price_ticks;
        quantity = trade.quantity;
        venue_id = trade.venue_id;
        source_id = trade.source_id;
        trade_or_order_id = trade.trade_id;
      })

  -- `event.flags` is a u16, the payload's flags are a u32.
  unfoldable pub decode_book_delta : Mem → ℕ → CanonicalEvent → CanonicalEvent × StatusCode
  decode_book_delta payload len event =
      let delta = BookDelta.read_from little payload in
      if ltb len BookDelta.size
      then (event, invalid_payload)
      else checked (record event {
        exchange_ts_ns = delta.exchange_ts_ns;
        instrument_id = delta.instrument_id;
        event_type = EventType.book_delta;
        side = delta.side;
        flags = delta.flags % 2 ^ 16;
        price_ticks = delta.price_ticks;
        quantity = delta.quantity;
        venue_id = delta.venue_id;
        source_id = delta.source_id;
        trade_or_order_id = delta.order_id;
      })

  unfoldable pub decode_status : Mem → ℕ → CanonicalEvent → CanonicalEvent × StatusCode
  decode_status payload len event =
      let status = StatusMessage.read_from little payload in
      if ltb len StatusMessage.size
      then (event, invalid_payload)
      else checked (record event {
        exchange_ts_ns = status.exchange_ts_ns;
        instrument_id = status.instrument_id;
        event_type = EventType.status;
        side = Side.bid;
        flags = bit_or (status.status * 2 ^ 8) status.reason % 2 ^ 16;
        price_ticks = pos 0;
        quantity = 0;
        venue_id = 0;
        source_id = 0;
        trade_or_order_id = 0;
      })

  unfoldable pub decode_heartbeat : Mem → ℕ → CanonicalEvent → CanonicalEvent × StatusCode
  decode_heartbeat payload len event =
      let hb = Heartbeat.read_from little payload in
      if ltb len Heartbeat.size then (event, invalid_payload) else (
        record event {
          exchange_ts_ns = hb.exchange_ts_ns;
          instrument_id = 0;
          event_type = EventType.heartbeat;
          side = Side.bid;
          flags = 0;
          price_ticks = pos 0;
          quantity = 0;
          venue_id = 0;
          source_id = 0;
          trade_or_order_id = 0;
        },
        ok,
      )

  -- The switch over the message type: the method for the payload, `none` for a control message, and
  -- an error for a type that no case names.
  unfoldable pub decode_payload :
      FrameHeader → Mem → CanonicalEvent → Option (CanonicalEvent × StatusCode)
  decode_payload header payload event =
      let len = header.payload_length in
      if header.message_type == MessageType.quote
      then some (decode_quote payload len event)
      else (if header.message_type == MessageType.trade
          then some (decode_trade payload len event)
          else (if header.message_type == MessageType.book_delta
              then some (decode_book_delta payload len event)
              else (if header.message_type == MessageType.status
                  then some (decode_status payload len event)
                  else (if header.message_type == MessageType.heartbeat
                      then some (decode_heartbeat payload len event)
                      else (if header.message_type == MessageType.stream_metadata
                          then none
                          else (if header.message_type == MessageType.end_of_stream
                              then none
                              else some (event, invalid_message_type)))))))

-- What `decode_frame` changes and returns.
abbrev pub Outcome : Type 0
Outcome = Decoder × CanonicalEvent × Result ℕ

-- `decode_errors_++` and the error.
abbrev pub fail : Decoder → CanonicalEvent → StatusCode → Outcome
fail d event s = (count_error d, event, error s)

-- The cases of the switch, with what follows them.
abbrev pub finish : Decoder → CanonicalEvent → ℕ → Option (CanonicalEvent × StatusCode) → Outcome
finish d event consumed none = (count_frame d, event, value consumed)
finish d event consumed (some (event', s)) =
    if is_ok s then (count_frame d, event', value consumed) else fail d event' s

-- The sequence check: control messages are let through.
abbrev pub out_of_sequence : Decoder → FrameHeader → Bool
out_of_sequence d header =
    leb header.sequence d.last_sequence
    && not (header.message_type == MessageType.stream_metadata)
    && not (header.message_type == MessageType.end_of_stream)

-- The fields of the event that the header gives.
abbrev pub stamp : CanonicalEvent → ℕ → FrameHeader → CanonicalEvent
stamp event receive_ts_ns header = record event {
  receive_ts_ns = if ltb 0 receive_ts_ns then receive_ts_ns else header.send_timestamp_ns;
  sequence = header.sequence;
}

module _ (k : Checksum) (little : Bool) where
  -- From the sequence check on.
  unfoldable pub decode_validated : Decoder → CanonicalEvent → ℕ → FrameHeader → Mem → ℕ → Outcome
  decode_validated d event receive_ts_ns header payload consumed =
      let d' = record d { last_session_id = header.session_id; last_sequence = header.sequence } in
      let event' = stamp event receive_ts_ns header in
      if out_of_sequence d header
      then fail d event sequence_not_monotonic
      else finish d' event' consumed (decode_payload little header payload event')

  -- From the header that was read on.
  unfoldable pub decode_read :
      Decoder → CanonicalEvent → ℕ → ℕ → Option (ℕ × FrameHeader × Mem) → Outcome
  decode_read d event receive_ts_ns size none = (d, event, error truncated_frame)
  decode_read d event receive_ts_ns size (some (consumed, header, payload)) =
      let status = Frame.validate k little header (some payload) size in
      if is_ok status
      then decode_validated d event receive_ts_ns header payload consumed
      else fail d event status

  unfoldable pub decode_frame : Decoder → Mem → ℕ → CanonicalEvent → ℕ → Outcome
  unfolding decode_read decode_validated
  decode_frame d buffer size event receive_ts_ns =
      decode_read d event receive_ts_ns size (Frame.read_frame k little buffer size)
