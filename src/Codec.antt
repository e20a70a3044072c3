-- ===== src/Codec.antt =====
-- The codecs of include/vectortick/codec.
pub mod ZigZag
pub mod BitPack
pub mod Varint
