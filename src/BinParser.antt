-- ===== src/BinParser.antt =====
-- internal/binparser/parser.go and internal/binparser/writer.go: the BIN01 frame protocol.
-- A stream is the list of the bytes still to come; it ends where the list does.
pub mod Types
pub mod Slices
pub mod Read
pub mod Write
pub mod Values
pub mod Attrs
pub mod RoundTrip
pub mod Progress
mod Tests
