-- ===== src/Tests.antt =====
-- Concrete runs: sample data, and for each result an input at which its hypotheses hold.
mod InsertionSort
mod Samples
mod OrderRuns
mod BookRuns
mod PositionRuns
mod StoreRuns
mod UseCaseRuns
mod SagaRuns
mod QuoteRuns
mod RepositoryRuns
mod OutboxRuns
mod NotificationRuns
mod ApiRuns
mod ServiceRuns
