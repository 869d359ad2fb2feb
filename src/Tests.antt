-- ===== src/Tests.antt =====
-- Concrete tables on which the theorems are applied, and runs of the services on them.
mod Data
mod Transfers
mod Deposits
mod Parts
mod Requests
mod Workers
mod System
mod Endpoints
mod Provider
mod Application
mod Coherence
mod Outage
