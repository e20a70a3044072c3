-- ===== src/Protocol/Decoder/Failure.antt =====
-- What an error of `decode_frame` means for the state.
use vector_tick.Common.{
  ℕ, ◌+◌, ◌%◌, ◌^◌, ◌≤◌, ◌<◌, Bool, Option, none, some, ◌≡◌, ◌⊎◌, inl, inr, sym, ap, Bool-cases,
}
use vector_tick.Memory.{Mem}
use vector_tick.Status.{StatusCode, value, error, is_ok, truncated_frame, sequence_not_monotonic}
use vector_tick.Crc32c.Checksum.{Checksum}
use vector_tick.Event.{CanonicalEvent}
use vector_tick.Protocol.Header
use vector_tick.Protocol.Header.{FrameHeader, read_header}
use vector_tick.Protocol.Frame
use vector_tick.Protocol.Frame.Validate.{read_frame-cases}
use vector_tick.Protocol.Decoder.{
  Decoder, Outcome, finish, fail, count_error, count_frame, stamp, out_of_sequence, decode_payload,
  decode_validated, decode_read, decode_frame,
}

-- One error more, and no frame more.
pub record Failed (d d' : Decoder) : Type 0 where
  pub counted : d'.decode_errors ≡ (d.decode_errors + 1) % 2 ^ 64
  pub no_frame : d'.frames_decoded ≡ d.frames_decoded

fail-Failed :
    (d : Decoder) (event : CanonicalEvent) (t : StatusCode) {d' : Decoder} {event' : CanonicalEvent}
    {s : StatusCode}
    → fail d event t ≡ (d', event', error s)
    → Failed d d'
fail-Failed d event t {d'} {event'} {s} h =
    let e : count_error d ≡ d' = cc in
    record {
      counted = sym (ap (λ (x : Decoder). x.decode_errors) e);
      no_frame = sym (ap (λ (x : Decoder). x.frames_decoded) e);
    }

finish-Failed :
    (d : Decoder) (event : CanonicalEvent) (c : ℕ) (o : Option (CanonicalEvent × StatusCode))
    {d' : Decoder} {event' : CanonicalEvent} {s : StatusCode}
    → finish d event c o ≡ (d', event', error s)
    → Failed d d'
finish-Failed d event c none h = absurd (cc)
finish-Failed d event c (some (e, t)) {d'} {event'} {s} h = elim (Bool-cases (is_ok t)) [
  | inl good ↦
      let taken : ◌≡◌ {A = Outcome} (count_frame d, e, value c) (d', event', error s) =
        rw good at h in
      absurd (cc)
  | inr bad ↦ fail-Failed d e t (rw bad at h)
]

module _ (k : Checksum) (little : Bool) (d : Decoder) (event : CanonicalEvent) (receive_ts_ns : ℕ)
    (d' : Decoder) (event' : CanonicalEvent) (s : StatusCode) where
  validated-Failed :
      (h : FrameHeader) (payload : Mem) (c : ℕ)
      → decode_validated k little d event receive_ts_ns h payload c ≡ (d', event', error s)
      → Failed d d'
  unfolding decode_validated
  validated-Failed h payload c e = elim (Bool-cases (out_of_sequence d h)) [
    | inl late ↦ fail-Failed d event sequence_not_monotonic (rw late at e)
    | inr fine ↦
        let f =
          finish-Failed _ _ c (decode_payload little h payload (stamp event receive_ts_ns h))
            (rw fine at e) in
        record { counted = f.counted; no_frame = f.no_frame }
  ]

  read-Failed :
      (size c : ℕ) (h : FrameHeader) (payload : Mem)
      → decode_read k little d event receive_ts_ns size (some (c, h, payload))
        ≡ (d', event', error s)
      → Failed d d'
  unfolding decode_read
  read-Failed size c h payload e =
      elim (Bool-cases (is_ok (Frame.validate k little h (some payload) size))) [
        | inl good ↦ validated-Failed h payload c (rw good at e)
        | inr bad ↦
            fail-Failed d event (Frame.validate k little h (some payload) size) (rw bad at e)
      ]

  -- An error of `decode_frame` on bytes that end inside the frame is TruncatedFrame and changes
  -- nothing; any other counts one error and no frame.
  pub decode_frame-error :
      (buffer : Mem) (size : ℕ)
      → decode_frame k little d buffer size event receive_ts_ns ≡ (d', event', error s)
      → ((size < Header.size + (read_header little buffer).payload_length)
          × (s ≡ truncated_frame)
          × (d' ≡ d)
          × (event' ≡ event))
        ⊎ ((Header.size + (read_header little buffer).payload_length ≤ size) × Failed d d')
  unfolding decode_frame
  decode_frame-error buffer size e = elim (read_frame-cases k little buffer size) [
    | inl (none_read, short) ↦
        let same : ◌≡◌ {A = Outcome} (d, event, error truncated_frame) (d', event', error s) =
          rw none_read at e in
        inl (short, cc, cc, cc)
    | inr (read, room) ↦ inr (room, read-Failed size _ (read_header little buffer) _ (rw read at e))
  ]
