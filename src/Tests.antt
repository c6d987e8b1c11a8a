-- ===== src/Tests.antt =====
-- The theorems at concrete inputs.
mod Callers
mod Data
mod Queue
mod Request
mod Connection
mod Mailhandler
mod Reports
mod Stores
mod Server
mod Events
