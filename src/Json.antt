-- ===== src/Json.antt =====
-- src/persistence/json.cpp: values, the parser and the printer.
pub mod Syntax
pub mod Scan
pub mod Parser
pub mod Printer
pub mod Texts
pub mod Maps
pub mod Shrinks
pub mod Termination
pub mod Reading
pub mod Leaves
pub mod Entries
pub mod RoundTrip
