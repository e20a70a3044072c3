-- ===== src/Protocol/Encoder/RoundTrip.antt =====
-- That `decode_frame` recovers the event of a frame that `encode_event` writes.
use vector_tick.Common.{
  ℕ, ◌+◌, ◌^◌, ◌≤◌, ◌<◌, Bool, ◌≡◌, ◌⊎◌, inl, inr, refl, arith, ◌==◌, if◌then◌else◌, le→ltb,
}
use vector_tick.Memory.{Mem, IsBytes}
use vector_tick.Status.{value}
use vector_tick.Crc32c.Checksum.{Checksum}
use vector_tick.Event
use vector_tick.Event.{CanonicalEvent}
use vector_tick.Event.EventType
use vector_tick.Protocol.Header
use vector_tick.Protocol.Header.{FrameHeader}
use vector_tick.Protocol.Quote
use vector_tick.Protocol.Trade
use vector_tick.Protocol.BookDelta
use vector_tick.Protocol.StatusMessage
use vector_tick.Protocol.Heartbeat
use vector_tick.Protocol.Decoder.{Decoder, decode_frame}
use vector_tick.Protocol.Encoder.{
  Encoder, quote_payload, trade_payload, book_delta_payload, status_payload, heartbeat_payload,
  message_of, write_payload, encode_message, encode_event,
}
use vector_tick.Protocol.Encoder.Payload.{
  Fits, quote_view, trade_view, book_delta_view, status_view, heartbeat_view,
}
use vector_tick.Protocol.Encoder.Delivery.{
  advance, stamped, quote-decoded, trade-decoded, book_delta-decoded, status-decoded,
  heartbeat-decoded,
}

-- What a frame carries of an event, by its type, and the length of its payload.
abbrev pub view : CanonicalEvent → CanonicalEvent → CanonicalEvent
view e before =
    if e.event_type == EventType.quote
    then quote_view e before
    else (if e.event_type == EventType.trade
        then trade_view e before
        else (if e.event_type == EventType.book_delta
            then book_delta_view e before
            else (if e.event_type == EventType.status
                then status_view e before
                else heartbeat_view e before)))

abbrev pub payload_size : CanonicalEvent → ℕ
payload_size e =
    if e.event_type == EventType.quote
    then Quote.size
    else (if e.event_type == EventType.trade
        then Trade.size
        else (if e.event_type == EventType.book_delta
            then BookDelta.size
            else (if e.event_type == EventType.status then StatusMessage.size else Heartbeat.size)))

module _ (k : Checksum) (writer reader : Bool) (d : Decoder) (e before : CanonicalEvent)
    (session_id size receive_ts_ns : ℕ) (f : Fits e) (session : session_id < 2 ^ 32)
    (next : d.last_sequence < e.sequence) (m : Mem) (b : IsBytes m)
    (time : receive_ts_ns ≤ Event.max_timestamp) where
  -- Whatever the two hosts: an event within the limits of `event::validate`, with a side, encoded into a
  -- large enough buffer of a session, is decoded from the written bytes by a decoder that has seen
  -- smaller sequence numbers only; both calls give the length of the frame, the decoder counts it and
  -- advances to its session and number, and the event carries the fields of the encoded one that its
  -- message type has.
  pub decode_frame-encode_event :
      (encoder : Encoder) (buffer_size : ℕ)
      → Header.size + payload_size e ≤ buffer_size
      → Header.size + payload_size e ≤ size
      → ((encode_event k writer encoder e m buffer_size session_id).2
          ≡ value (Header.size + payload_size e))
        × (decode_frame k reader d
              (encode_event k writer encoder e m buffer_size session_id).1
              size
              before
              receive_ts_ns
            ≡ (
              advance d session_id e.sequence,
              view e (stamped before receive_ts_ns e),
              value (Header.size + payload_size e),
            ))
  unfolding encode_event encode_message write_payload message_of quote_payload trade_payload
      book_delta_payload status_payload heartbeat_payload
  decode_frame-encode_event encoder buffer_size fits room = elim kinds [
    | inl is ↦
        rw (is, le→ltb buffer_size (Header.size + Quote.size) (rw is at fits))
          (
            refl,
            quote-decoded k writer reader d e before session_id size receive_ts_ns f session next m
                b time (rw is at room),
          )
    | inr (inl is) ↦
        rw (is, le→ltb buffer_size (Header.size + Trade.size) (rw is at fits))
          (
            refl,
            trade-decoded k writer reader d e before session_id size receive_ts_ns f session next m
                b time (rw is at room),
          )
    | inr (inr (inl is)) ↦
        rw (is, le→ltb buffer_size (Header.size + BookDelta.size) (rw is at fits))
          (
            refl,
            book_delta-decoded k writer reader d e before session_id size receive_ts_ns f session
                next m b time (rw is at room),
          )
    | inr (inr (inr (inl is))) ↦
        rw (is, le→ltb buffer_size (Header.size + StatusMessage.size) (rw is at fits))
          (
            refl,
            status-decoded k writer reader d e before session_id size receive_ts_ns f session next m
                b time (rw is at room),
          )
    | inr (inr (inr (inr is))) ↦
        rw (is, le→ltb buffer_size (Header.size + Heartbeat.size) (rw is at fits))
          (
            refl,
            heartbeat-decoded k writer reader d e before session_id size receive_ts_ns f session
                next m b time (rw is at room),
          )
  ]
    where
      kinds :
          (e.event_type ≡ EventType.quote)
          ⊎ (e.event_type ≡ EventType.trade)
          ⊎ (e.event_type ≡ EventType.book_delta)
          ⊎ (e.event_type ≡ EventType.status)
          ⊎ (e.event_type ≡ EventType.heartbeat)
      kinds = let l = f.limits in ground arith
