-- ===== src/Protocol/Encoder/Delivery.antt =====
-- That the decoder takes a frame of the encoder around each kind of payload.
use vector_tick.Common.{
  ℕ, ◌+◌, ◌%◌, ◌^◌, ◌≤◌, ◌<◌, Bool, false, some, ◌≡◌, sym, ap, arith, ltb, if◌then◌else◌,
}
use vector_tick.Memory.{Mem, IsBytes, shift}
use vector_tick.Status.{ok, value}
use vector_tick.Crc32c.Checksum.{Checksum}
use vector_tick.Event
use vector_tick.Event.{CanonicalEvent}
use vector_tick.Protocol.MessageType
use vector_tick.Protocol.Header
use vector_tick.Protocol.Header.{FrameHeader}
use vector_tick.Protocol.Frame.{write_frame, frame_header}
use vector_tick.Protocol.Frame.Layout.{sealed, Sent, write_frame-Sent}
use vector_tick.Protocol.Frame.Validate.{validate-Accepted, IsSendable, read_frame-write_frame}
use vector_tick.Protocol.Quote
use vector_tick.Protocol.Trade
use vector_tick.Protocol.BookDelta
use vector_tick.Protocol.StatusMessage
use vector_tick.Protocol.Heartbeat
use vector_tick.Protocol.Decoder.{
  Decoder, decode_payload, decode_read, decode_validated, decode_frame, out_of_sequence,
}
use vector_tick.Protocol.Encoder.{
  quote_payload, trade_payload, book_delta_payload, status_payload, heartbeat_payload,
}
use vector_tick.Protocol.Encoder.Payload.{
  Fits, quote_view, trade_view, book_delta_view, status_view, heartbeat_view, decode_quote-view,
  decode_trade-view, decode_book_delta-view, decode_status-view, decode_heartbeat-view,
}
use vector_tick.Protocol.Encoder.Written.{
  quote-IsBytes, quote-shift, trade-IsBytes, trade-shift, book_delta-IsBytes, book_delta-shift,
  status-IsBytes, status-shift, heartbeat-IsBytes, heartbeat-shift,
}

-- The decoder after a frame of a session with a sequence number.
abbrev pub advance : Decoder → ℕ → ℕ → Decoder
advance d session_id sequence = record d {
  last_session_id = session_id;
  last_sequence = sequence;
  frames_decoded = (d.frames_decoded + 1) % 2 ^ 64;
}

-- What the decoder fills in before it reads the payload.
abbrev pub stamped : CanonicalEvent → ℕ → CanonicalEvent → CanonicalEvent
stamped before receive_ts_ns e = record before {
  receive_ts_ns = if ltb 0 receive_ts_ns then receive_ts_ns else e.exchange_ts_ns;
  sequence = e.sequence;
}

-- The frame around a payload.
abbrev pub framed : Checksum → Bool → CanonicalEvent → ℕ → Mem → ℕ → ℕ → Mem
framed k writer e session_id filled type n =
    write_frame k writer filled type 0 session_id e.sequence e.exchange_ts_ns
      (some (shift filled Header.size)) n

module _ (k : Checksum) (writer reader : Bool) (d : Decoder) (e before : CanonicalEvent)
    (session_id size receive_ts_ns : ℕ) (f : Fits e) (session : session_id < 2 ^ 32)
    (next : d.last_sequence < e.sequence) where
  -- A frame whose payload the switch takes.
  module _ (filled : Mem) (type n : ℕ) (b : IsBytes filled) (small : n ≤ 48)
      (known : (1 ≤ type) × (type ≤ MessageType.heartbeat)) (room : Header.size + n ≤ size) where
    abbrev header : FrameHeader
    header =
        sealed k writer (frame_header type 0 session_id e.sequence e.exchange_ts_ns n)
          (shift filled Header.size)

    abbrev frame : Mem
    frame = framed k writer e session_id filled type n

    sendable : IsSendable type 0 session_id e.sequence e.exchange_ts_ns n
    sendable = let l = f.limits in let g = f.sequence in ground arith

    arrived : Sent reader frame header (shift filled Header.size)
    arrived =
        write_frame-Sent k writer reader filled (shift filled Header.size) type 0 session_id
          e.sequence e.exchange_ts_ns n b (λ i. b (Header.size + i)) sendable.header_fits

    in_sequence : out_of_sequence d header ≡ false
    in_sequence = ground arith

    delivered :
        (after : CanonicalEvent)
        → decode_payload reader header (shift frame Header.size) (stamped before receive_ts_ns e)
          ≡ some (after, ok)
        → decode_frame k reader d frame size before receive_ts_ns
          ≡ (advance d session_id e.sequence, after, value (Header.size + n))
    unfolding decode_frame decode_read decode_validated
    delivered after taken =
        let (read, good) =
          read_frame-write_frame k writer reader filled (shift filled Header.size) type 0 session_id
            e.sequence e.exchange_ts_ns n size b (λ i. b (Header.size + i)) sendable room in
        rw (
          read,
          (validate-Accepted k reader header (some (shift frame Header.size)) size).1 good,
          in_sequence,
          taken,
        )

  module _ (m : Mem) (b : IsBytes m) (time : receive_ts_ns ≤ Event.max_timestamp) where
    stamped_time : (stamped before receive_ts_ns e).receive_ts_ns ≤ Event.max_timestamp
    stamped_time = let l = f.limits in ground arith

    pub quote-decoded :
        Header.size + Quote.size ≤ size
        → decode_frame k reader d
            (framed k writer e session_id
              (Quote.write_to writer m Header.size (quote_payload e))
              MessageType.quote
              Quote.size)
            size
            before
            receive_ts_ns
          ≡ (
            advance d session_id e.sequence,
            quote_view e (stamped before receive_ts_ns e),
            value (Header.size + Quote.size),
          )
    unfolding decode_payload
    quote-decoded room =
        delivered filled MessageType.quote Quote.size bytes_filled (omega arith) (omega arith) room
          _
          (ap some (
            decode_quote-view writer reader (shift m Header.size) _ e
              (stamped before receive_ts_ns e) (λ i. b (Header.size + i)) f stamped_time
              (rw (sym (quote-shift writer m e b f))
                (arrived filled MessageType.quote Quote.size bytes_filled (omega arith)
                  (omega arith) room).payload)))
      where
        filled : Mem
        filled = Quote.write_to writer m Header.size (quote_payload e)

        bytes_filled : IsBytes filled
        bytes_filled = quote-IsBytes writer m e b f

    pub trade-decoded :
        Header.size + Trade.size ≤ size
        → decode_frame k reader d
            (framed k writer e session_id
              (Trade.write_to writer m Header.size (trade_payload e))
              MessageType.trade
              Trade.size)
            size
            before
            receive_ts_ns
          ≡ (
            advance d session_id e.sequence,
            trade_view e (stamped before receive_ts_ns e),
            value (Header.size + Trade.size),
          )
    unfolding decode_payload
    trade-decoded room =
        delivered filled MessageType.trade Trade.size bytes_filled (omega arith) (omega arith) room
          _
          (ap some (
            decode_trade-view writer reader (shift m Header.size) _ e
              (stamped before receive_ts_ns e) (λ i. b (Header.size + i)) f stamped_time
              (rw (sym (trade-shift writer m e b f))
                (arrived filled MessageType.trade Trade.size bytes_filled (omega arith)
                  (omega arith) room).payload)))
      where
        filled : Mem
        filled = Trade.write_to writer m Header.size (trade_payload e)

        bytes_filled : IsBytes filled
        bytes_filled = trade-IsBytes writer m e b f

    pub book_delta-decoded :
        Header.size + BookDelta.size ≤ size
        → decode_frame k reader d
            (framed k writer e session_id
              (BookDelta.write_to writer m Header.size (book_delta_payload e))
              MessageType.book_delta
              BookDelta.size)
            size
            before
            receive_ts_ns
          ≡ (
            advance d session_id e.sequence,
            book_delta_view e (stamped before receive_ts_ns e),
            value (Header.size + BookDelta.size),
          )
    unfolding decode_payload
    book_delta-decoded room =
        delivered filled MessageType.book_delta BookDelta.size bytes_filled (omega arith)
          (omega arith) room _
          (ap some (
            decode_book_delta-view writer reader (shift m Header.size) _ e
              (stamped before receive_ts_ns e) (λ i. b (Header.size + i)) f stamped_time
              (rw (sym (book_delta-shift writer m e b f))
                (arrived filled MessageType.book_delta BookDelta.size bytes_filled (omega arith)
                  (omega arith) room).payload)))
      where
        filled : Mem
        filled = BookDelta.write_to writer m Header.size (book_delta_payload e)

        bytes_filled : IsBytes filled
        bytes_filled = book_delta-IsBytes writer m e b f

    pub status-decoded :
        Header.size + StatusMessage.size ≤ size
        → decode_frame k reader d
            (framed k writer e session_id
              (StatusMessage.write_to writer m Header.size (status_payload e))
              MessageType.status
              StatusMessage.size)
            size
            before
            receive_ts_ns
          ≡ (
            advance d session_id e.sequence,
            status_view e (stamped before receive_ts_ns e),
            value (Header.size + StatusMessage.size),
          )
    unfolding decode_payload
    status-decoded room =
        delivered filled MessageType.status StatusMessage.size bytes_filled (omega arith)
          (omega arith) room _
          (ap some (
            decode_status-view writer reader (shift m Header.size) _ e
              (stamped before receive_ts_ns e) (λ i. b (Header.size + i)) f stamped_time
              (rw (sym (status-shift writer m e b f))
                (arrived filled MessageType.status StatusMessage.size bytes_filled (omega arith)
                  (omega arith) room).payload)))
      where
        filled : Mem
        filled = StatusMessage.write_to writer m Header.size (status_payload e)

        bytes_filled : IsBytes filled
        bytes_filled = status-IsBytes writer m e b f

    pub heartbeat-decoded :
        Header.size + Heartbeat.size ≤ size
        → decode_frame k reader d
            (framed k writer e session_id
              (Heartbeat.write_to writer m Header.size (heartbeat_payload e))
              MessageType.heartbeat
              Heartbeat.size)
            size
            before
            receive_ts_ns
          ≡ (
            advance d session_id e.sequence,
            heartbeat_view e (stamped before receive_ts_ns e),
            value (Header.size + Heartbeat.size),
          )
    unfolding decode_payload
    heartbeat-decoded room =
        delivered filled MessageType.heartbeat Heartbeat.size bytes_filled (omega arith)
          (omega arith) room _
          (ap some (
            decode_heartbeat-view writer reader (shift m Header.size) _ e
              (stamped before receive_ts_ns e) (λ i. b (Header.size + i)) f stamped_time
              (rw (sym (heartbeat-shift writer m e b f))
                (arrived filled MessageType.heartbeat Heartbeat.size bytes_filled (omega arith)
                  (omega arith) room).payload)))
      where
        filled : Mem
        filled = Heartbeat.write_to writer m Header.size (heartbeat_payload e)

        bytes_filled : IsBytes filled
        bytes_filled = heartbeat-IsBytes writer m e b f
