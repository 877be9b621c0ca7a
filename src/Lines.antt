-- ===== src/Lines.antt =====
-- text/lines/src: the delimiter parser and the delimiter encoder.
pub mod Delimiter
pub mod Framing
pub mod LineParse
pub mod LineEnc
pub mod RoundTrip
mod Tests
