-- ===== src/Wal.antt =====
-- The write-ahead log (src/wal): one binary segment file, its writer, reader and scanner.
pub mod Types
pub mod Bytes
pub mod Alignment
pub mod Checksum
pub mod Encoding
pub mod Aligning
pub mod Streaming
pub mod Header
pub mod Stream
pub mod Scanner
pub mod Reader
pub mod Writer
pub mod Opening
pub mod Made
pub mod Scanned
pub mod Appended
pub mod Written
pub mod ReadBack
pub mod RoundTrip
pub mod Torn
pub mod Prefix
pub mod Recovery
pub mod TornPadding
pub mod Total
pub mod Facade
pub mod Queue
pub mod Delivery
pub mod Reopening
pub mod Typed
