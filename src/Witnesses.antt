-- ===== src/Witnesses.antt =====
-- Concrete runs of the modelled code, with the theorems applied to them.
mod Pages
mod Shell
mod Api
mod Traffic
mod Operations
mod Requests
mod Decisions
