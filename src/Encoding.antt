-- ===== src/Encoding.antt =====
-- sem02-data-encoding: how numbers are stored and shown.
pub mod PrintBits
