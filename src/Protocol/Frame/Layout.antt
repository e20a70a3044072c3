-- ===== src/Protocol/Frame/Layout.antt =====
-- The bytes of a frame and its checksum, on any host.
use vector_tick.Common.{
  ℕ, zero, suc, ◌+◌, ◌-◌, ◌<◌, ◌^◌, Bool, true, some, List, ◌++◌, ltb, if◌then◌else◌, ◌&&◌, ◌≡◌,
  sym, ◌∙◌, ap, fun_ext, arith, lt→ltb,
}
use vector_tick.Memory.{Mem, IsBytes, shift, copy, bytes}
use vector_tick.Memory.Agree.{Agree}
use vector_tick.Crc32c.Reference.{crc32c}
use vector_tick.Crc32c.Checksum.{
  Checksum, crc_from, crc_from-lt, crc_from-nil, crc_from-append, crc_from-crc32c,
}
use vector_tick.Protocol.Header
use vector_tick.Protocol.Header.{FrameHeader, read_header, write_header}
use vector_tick.Protocol.Header.RoundTrip.{
  IsValid, stored, stored-IsBytes, write_header-stored, read_header-write_header,
}
use vector_tick.Protocol.Header.Local.{read_header-Agree}
use vector_tick.Protocol.Frame.{blank, copy_payload, compute_crc, frame_header, write_frame}

-- The header as the checksum sees it.
abbrev pub unsealed : FrameHeader → FrameHeader
unsealed h = record h { crc32c = 0 }

-- The 40 bytes of a header in network order.
abbrev pub header_bytes : FrameHeader → List ℕ
header_bytes h = bytes (stored blank 0 h) Header.size

blank-IsBytes : IsBytes blank
blank-IsBytes i = omega arith

unsealed-IsValid : {h : FrameHeader} → IsValid h → IsValid (unsealed h)
unsealed-IsValid v = omega arith

-- The guard on the payload's length makes no difference: no bytes leave the checksum as it is.
payload_part :
    (k : Checksum) (crc n : ℕ) (m : Mem)
    → crc < 2 ^ 32
    → IsBytes m
    → (if ltb 0 n && true then k.compute crc (some m) n else crc) ≡ crc_from crc (bytes m n)
unfolding bytes
payload_part k crc zero m h b = sym (crc_from-nil crc)
payload_part k crc (suc n) m h b = rw (lt→ltb 0 (suc n) (omega arith)) (k.spec crc m (suc n) h b)

-- The checksum of a frame whose header fields fit their types, with a payload of bytes, is the CRC32C
-- of the 40 header bytes in network order with the checksum field zero, followed by the payload, on a
-- host of either byte order.
pub compute_crc-crc32c :
    (k : Checksum) (little : Bool) (h : FrameHeader) (m : Mem)
    → IsValid h
    → IsBytes m
    → compute_crc k little h (some m)
      ≡ crc32c (header_bytes (unsealed h) ++ bytes m h.payload_length)
unfolding compute_crc
compute_crc-crc32c k little h m v b =
    rw (write_header-stored little blank 0 (unsealed h) (unsealed-IsValid v), head)
      (payload_part k (crc_from 0 (header_bytes (unsealed h))) h.payload_length m
          (crc_from-lt 0 w Header.size (omega arith) w-IsBytes) b
        ∙ crc_from-append 0 (header_bytes (unsealed h)) (bytes m h.payload_length)
        ∙ crc_from-crc32c (header_bytes (unsealed h) ++ bytes m h.payload_length))
  where
    w : Mem
    w = stored blank 0 (unsealed h)

    w-IsBytes : IsBytes w
    w-IsBytes = stored-IsBytes blank 0 (unsealed h) blank-IsBytes (unsealed-IsValid v)

    head : k.compute 0 (some w) Header.size ≡ crc_from 0 (header_bytes (unsealed h))
    head = k.spec 0 w Header.size (omega arith) w-IsBytes

pub compute_crc-lt :
    (k : Checksum) (little : Bool) (h : FrameHeader) (m : Mem)
    → IsValid h
    → IsBytes m
    → compute_crc k little h (some m) < 2 ^ 32
compute_crc-lt k little h m v b =
    rw (compute_crc-crc32c k little h m v b, ← crc_from-crc32c, ← crc_from-append)
      (crc_from-lt _ m h.payload_length
        (crc_from-lt 0 _ Header.size (omega arith)
          (stored-IsBytes blank 0 (unsealed h) blank-IsBytes (unsealed-IsValid v)))
        b)

-- The header that `write_frame` sends, and the memory that it leaves.
abbrev pub sealed : Checksum → Bool → FrameHeader → Mem → FrameHeader
sealed k little h src = record h { crc32c = compute_crc k little h (some src) }

pub copy_payload-copy :
    (m src : Mem) (n : ℕ) → copy_payload m (some src) n ≡ copy m Header.size src n
copy_payload-copy m src zero = fun_ext λ i. ground arith
copy_payload-copy m src (suc n) = rw (lt→ltb 0 (suc n) (omega arith))

copy-IsBytes : (m src : Mem) (a n : ℕ) → IsBytes m → IsBytes src → IsBytes (copy m a src n)
copy-IsBytes m src a n b c i = ground (arith, b i, c (i - a))

copy-Agree : (m src : Mem) (a n : ℕ) → Agree a (copy m a src n) m
copy-Agree m src a n i h = ground arith

shift-copy : (m src : Mem) (a n : ℕ) → Agree n (shift (copy m a src n) a) src
shift-copy m src a n i h = ground (arith, ap src (let e : a + i - a ≡ i = omega arith in e))

-- A written frame, read on any host: the header with its checksum, the payload behind it, and bytes.
pub record Sent (reader : Bool) (written : Mem) (h : FrameHeader) (src : Mem) : Type 0 where
  pub header : read_header reader written ≡ h
  pub payload : Agree h.payload_length (shift written Header.size) src
  pub octets : IsBytes written

pub write_frame-Sent :
    (k : Checksum) (writer reader : Bool) (buffer src : Mem)
    (type flags session_id sequence timestamp n : ℕ)
    → IsBytes buffer
    → IsBytes src
    → IsValid (frame_header type flags session_id sequence timestamp n)
    → Sent reader
        (write_frame k writer buffer type flags session_id sequence timestamp (some src) n)
        (sealed k writer (frame_header type flags session_id sequence timestamp n) src)
        src
unfolding write_frame
write_frame-Sent k writer reader buffer src type flags session_id sequence timestamp n b c v =
    rw (copy_payload-copy (write_header writer buffer 0 h) src n) (record {
      header =
          read_header-Agree reader Header.size _ _ (copy-Agree w src Header.size n) (omega arith)
          ∙ read_header-write_header writer reader buffer h b fits;
      payload = shift-copy w src Header.size n;
      octets = copy-IsBytes w src Header.size n w-IsBytes c;
    })
  where
    h : FrameHeader
    h = sealed k writer (frame_header type flags session_id sequence timestamp n) src

    fits : IsValid h
    fits = omega (
      arith,
      compute_crc-lt k writer (frame_header type flags session_id sequence timestamp n) src v c,
    )

    w : Mem
    w = write_header writer buffer 0 h

    w-IsBytes : IsBytes w
    w-IsBytes = rw (write_header-stored writer buffer 0 h fits) (stored-IsBytes buffer 0 h b fits)
