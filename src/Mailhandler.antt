-- ===== src/Mailhandler.antt =====
-- The mailhandler process: src/mailhandler.
pub mod StringBuffer
pub mod Text
pub mod Zip
pub mod Json
pub mod Reports
pub mod Loop
pub mod Encode
pub mod Start
