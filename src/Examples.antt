-- ===== src/Examples.antt =====
-- Runs of the models on concrete inputs.
mod Queue
mod Leases
mod Runs
mod Plans
mod Approvals
mod Tools
mod Wiki
mod Sessions
mod Control
mod Reopened
mod Endpoints
