-- ===== src/Tests.antt =====
-- Runs of the model on concrete inputs, and the theorems at concrete inputs.
mod Fixtures
mod Quotas
mod Loops
mod Ticks
mod Traces
mod Prices
mod Answers
mod Rounds
mod Systems
mod Debits
mod Views
mod Startups
mod Copies
mod Detections
mod Starts
mod Promises
mod QuotaCopies
mod PolicyCopies
