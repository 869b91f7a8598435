-- ===== src/Tests.antt =====
-- The theorems at concrete inputs.
mod RoqRuns
mod WireRuns
mod MoqRuns
mod TableRuns
mod Sorting
mod MessageRuns
mod SubscriptionRuns
mod Printing
mod ObjectRuns
