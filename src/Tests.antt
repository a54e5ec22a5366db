-- ===== src/Tests.antt =====
-- Concrete services and inputs, and the theorems applied to them.
mod Jids
mod Filters
mod Texts
mod Coding
mod Jobs
mod Audio
mod Stream
mod Cards
mod Teams
mod Reports
mod Sessions
mod Plans
mod Recording
mod Ui
mod Assignments
mod Conversation
