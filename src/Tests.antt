-- ===== src/Tests.antt =====
-- Concrete surroundings, runs of the model, and the theorems at inputs that exercise them.
mod Service
mod Transactions
mod Paths
mod Client
mod Gateway
mod Storage
mod Devices
mod Requests
mod Sessions
