-- ===== src/Protocol/Decoder/Steps.antt =====
-- What each outcome of `decode_frame` means.
use vector_tick.Common.{
  ℕ, ◌+◌, ◌%◌, ◌^◌, ◌<◌, Bool, false, Option, none, some, ◌≡◌, ◌⊎◌, inl, inr, refl, arith, ◌∙◌, ap,
  Bool-cases,
}
use vector_tick.Memory.{Mem, shift}
use vector_tick.Status.{
  StatusCode, ok, value, error, is_ok, is_ok→ok, truncated_frame, sequence_not_monotonic,
}
use vector_tick.Crc32c.Checksum.{Checksum}
use vector_tick.Event
use vector_tick.Event.{CanonicalEvent}
use vector_tick.Event.EventType
use vector_tick.Protocol.MessageType
use vector_tick.Protocol.Header
use vector_tick.Protocol.Header.{FrameHeader, read_header}
use vector_tick.Protocol.Frame
use vector_tick.Protocol.Frame.Validate.{Accepted, validate-Accepted, read_frame-cases}
use vector_tick.Protocol.Decoder.{
  Decoder, Outcome, decode_quote, decode_trade, decode_book_delta, decode_status, decode_heartbeat,
  decode_payload, finish, fail, count_frame, stamp, out_of_sequence, decode_validated, decode_read,
  decode_frame,
}

-- The two kinds of message that are no events.
abbrev pub IsControl : FrameHeader → Type 0
IsControl h =
    (h.message_type ≡ MessageType.stream_metadata) ⊎ (h.message_type ≡ MessageType.end_of_stream)

-- What a payload method leaves of an event: the fields set before it ran stay, and the event passes
-- `event::validate` unless it is a heartbeat.
pub record Delivered (before after : CanonicalEvent) : Type 0 where
  pub sequence : after.sequence ≡ before.sequence
  pub receive : after.receive_ts_ns ≡ before.receive_ts_ns
  pub valid : (Event.validate after ≡ ok) ⊎ (after.event_type ≡ EventType.heartbeat)

module _ (little : Bool) (payload : Mem) (len : ℕ) (event after : CanonicalEvent) where
  quote-Delivered : decode_quote little payload len event ≡ (after, ok) → Delivered event after
  unfolding decode_quote
  quote-Delivered h = ground arith

  trade-Delivered : decode_trade little payload len event ≡ (after, ok) → Delivered event after
  unfolding decode_trade
  trade-Delivered h = ground arith

  book_delta-Delivered :
      decode_book_delta little payload len event ≡ (after, ok) → Delivered event after
  unfolding decode_book_delta
  book_delta-Delivered h = ground arith

  status-Delivered : decode_status little payload len event ≡ (after, ok) → Delivered event after
  unfolding decode_status
  status-Delivered h = ground arith

  heartbeat-Delivered :
      decode_heartbeat little payload len event ≡ (after, ok) → Delivered event after
  unfolding decode_heartbeat
  heartbeat-Delivered h = ground arith

  -- What the switch leaves when the case that it takes succeeds.
  payload-Delivered :
      (h : FrameHeader)
      → h.payload_length ≡ len
      → decode_payload little h payload event ≡ some (after, ok)
      → Delivered event after
  unfolding decode_payload
  payload-Delivered h e p = ground (
    arith, quote-Delivered, trade-Delivered, book_delta-Delivered, status-Delivered,
    heartbeat-Delivered,
  )

-- The switch names no case for control messages alone.
decode_payload-IsControl :
    (little : Bool) (h : FrameHeader) (payload : Mem) (event : CanonicalEvent)
    → decode_payload little h payload event ≡ none
    → IsControl h
unfolding decode_payload
decode_payload-IsControl little h payload event e = ground arith

-- A frame that `decode_frame` takes: what was checked, and what changed.
pub record Decoded (k : Checksum) (little : Bool) (d : Decoder) (buffer : Mem) (size : ℕ)
    (event : CanonicalEvent) (d' : Decoder) (event' : CanonicalEvent) (consumed : ℕ) : Type 0 where
  pub accepted :
      Accepted k little (read_header little buffer) (some (shift buffer Header.size)) size
  pub whole : consumed ≡ Header.size + (read_header little buffer).payload_length
  pub ordered :
      (d.last_sequence < (read_header little buffer).sequence)
      ⊎ IsControl (read_header little buffer)
  pub advanced : d'.last_sequence ≡ (read_header little buffer).sequence
  pub session : d'.last_session_id ≡ (read_header little buffer).session_id
  pub counted : d'.frames_decoded ≡ (d.frames_decoded + 1) % 2 ^ 64
  pub no_error : d'.decode_errors ≡ d.decode_errors
  pub numbered : event'.sequence ≡ (read_header little buffer).sequence
  pub usable :
      IsControl (read_header little buffer)
      ⊎ (Event.validate event' ≡ ok)
      ⊎ (event'.event_type ≡ EventType.heartbeat)

-- The end of the switch, by what the case gave.
finish-value :
    (d : Decoder) (event : CanonicalEvent) (c : ℕ) (o : Option (CanonicalEvent × StatusCode))
    {d' : Decoder} {event' : CanonicalEvent} {n : ℕ}
    → finish d event c o ≡ (d', event', value n)
    → (d' ≡ count_frame d) × (n ≡ c) × (((o ≡ none) × (event' ≡ event)) ⊎ (o ≡ some (event', ok)))
finish-value d event c none h = (cc, cc, inl (refl, cc))
finish-value d event c (some (e, s)) {d'} {event'} {n} h = elim (Bool-cases (is_ok s)) [
  | inl good ↦
      let taken : ◌≡◌ {A = Outcome} (count_frame d, e, value c) (d', event', value n) =
        rw good at h in
      (cc, cc, inr (cc (is_ok→ok s good)))
  | inr bad ↦ let taken : fail d e s ≡ (d', event', value n) = rw bad at h in absurd (cc)
]

-- The event and its number, from what the switch gave.
switched :
    (little : Bool) (h : FrameHeader) (payload : Mem) (before event' : CanonicalEvent)
    → ((decode_payload little h payload before ≡ none) × (event' ≡ before))
      ⊎ (decode_payload little h payload before ≡ some (event', ok))
    → (event'.sequence ≡ before.sequence)
      × (IsControl h ⊎ (Event.validate event' ≡ ok) ⊎ (event'.event_type ≡ EventType.heartbeat))
switched little h payload before event' (inl (o, e)) = (
  ap (λ (x : CanonicalEvent). x.sequence) e,
  inl (decode_payload-IsControl little h payload before o),
)
switched little h payload before event' (inr o) =
    let v = payload-Delivered little payload h.payload_length before event' h refl o in
    (v.sequence, inr v.valid)

in_order :
    (d : Decoder) (h : FrameHeader)
    → out_of_sequence d h ≡ false
    → (d.last_sequence < h.sequence) ⊎ IsControl h
in_order d h e = ground arith

module _ (k : Checksum) (little : Bool) (d : Decoder) (buffer : Mem) (size : ℕ)
    (event : CanonicalEvent) (receive_ts_ns : ℕ) {d' : Decoder} {event' : CanonicalEvent}
    {n : ℕ} where
  validated-Decoded :
      (c : ℕ)
      → c ≡ Header.size + (read_header little buffer).payload_length
      → Accepted k little (read_header little buffer) (some (shift buffer Header.size)) size
      → decode_validated k little d event receive_ts_ns
          (read_header little buffer)
          (shift buffer Header.size)
          c
        ≡ (d', event', value n)
      → Decoded k little d buffer size event d' event' n
  unfolding decode_validated
  validated-Decoded c whole a h =
      elim (Bool-cases (out_of_sequence d (read_header little buffer))) [
        | inl late ↦
            let failed : fail d event sequence_not_monotonic ≡ (d', event', value n) =
              rw late at h in
            absurd (cc)
        | inr fine ↦
            let (e, same, o) = finish-value _ _ c _ (rw fine at h) in
            let (number, usable) =
              switched little (read_header little buffer) (shift buffer Header.size)
                (stamp event receive_ts_ns (read_header little buffer)) event' o in
            record {
              accepted = a;
              whole = same ∙ whole;
              ordered = in_order d (read_header little buffer) fine;
              advanced = ap (λ (x : Decoder). x.last_sequence) e;
              session = ap (λ (x : Decoder). x.last_session_id) e;
              counted = ap (λ (x : Decoder). x.frames_decoded) e;
              no_error = ap (λ (x : Decoder). x.decode_errors) e;
              numbered = number;
              usable = usable;
            }
      ]

  read-Decoded :
      decode_read k little d event receive_ts_ns size (
          some (
            Header.size + (read_header little buffer).payload_length,
            read_header little buffer,
            shift buffer Header.size,
          ))
        ≡ (d', event', value n)
      → Decoded k little d buffer size event d' event' n
  unfolding decode_read
  read-Decoded h = elim (Bool-cases (is_ok status)) [
    | inl good ↦
        validated-Decoded _ refl
          ((validate-Accepted k little (read_header little buffer) (some (shift buffer Header.size))
              size).0
            (is_ok→ok status good))
          (rw good at h)
    | inr bad ↦
        let failed : fail d event status ≡ (d', event', value n) = rw bad at h in absurd (cc)
  ]
    where
      status : StatusCode
      status =
          Frame.validate k little (read_header little buffer) (some (shift buffer Header.size)) size

  -- What a value of `decode_frame` means: the bytes hold a whole frame that passes every check and is
  -- in sequence or a control message; the state advances to its numbers, one frame is counted and no
  -- error; the event carries its number, and passes `event::validate` unless it is a heartbeat or the
  -- frame is a control message.
  pub decode_frame-Decoded :
      decode_frame k little d buffer size event receive_ts_ns ≡ (d', event', value n)
      → Decoded k little d buffer size event d' event' n
  unfolding decode_frame
  decode_frame-Decoded h = elim (read_frame-cases k little buffer size) [
    | inl (none_read, _) ↦
        let failed : ◌≡◌ {A = Outcome} (d, event, error truncated_frame) (d', event', value n) =
          rw none_read at h in
        absurd (cc)
    | inr (read, room) ↦ read-Decoded (rw read at h)
  ]
