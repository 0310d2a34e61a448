-- ===== src/Rdp/Progressive.antt =====
-- rdp-sidecar/src/progressif.rs: the RemoteFX Progressive decoder. The parsing of a stream, the entropy
-- decoding of a first pass, the inverse wavelets and the conversion of colours are ironrdp's.
pub mod Bits
pub mod Refine
pub mod Decoder
pub mod Region
pub mod Kept
pub mod Sound
