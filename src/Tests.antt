-- ===== src/Tests.antt =====
-- Concrete runs of the models: one for each result that has conditions.
mod Tracker
mod Throttlers
mod Records
mod Queues
mod Services
mod Nozzle
mod Supervision
mod Connections
mod Retries
