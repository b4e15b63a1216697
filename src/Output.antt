-- ===== src/Output.antt =====
-- src/output.c: the buffered output and the JSON printer over it.
pub mod Buffer
pub mod Stream
pub mod Scan
pub mod Printer
