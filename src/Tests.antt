-- ===== src/Tests.antt =====
-- Concrete runs of the model.
mod Scenario
mod Delays
mod Domain
mod UseCases
mod Amounts
mod Openings
mod Outbox
mod Reads
mod Records
mod Messages
mod Paging
