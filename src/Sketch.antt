-- ===== src/Sketch.antt =====
-- esp32s3C/: the northbridge as a sketch for the Arduino IDE, with a codec, a parser, ports and a
-- router of its own.
pub mod Codec
pub mod Parser
pub mod Ports
pub mod Route
pub mod Agree
pub mod Answers
pub mod Isolation
pub mod Diagnose
pub mod Tests
