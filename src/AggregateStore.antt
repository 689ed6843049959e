-- ===== src/AggregateStore.antt =====
-- application/aggregates/aggregate_store.go: aggregates out of the event store and back.
pub mod Store
pub mod Orders
pub mod Saves
pub mod Reloads
pub mod Loads
pub mod Unloadable
pub mod UnloadableOrders
