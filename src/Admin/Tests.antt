-- ===== src/Admin/Tests.antt =====
-- Runs of the store on small inputs, and its theorems at concrete inputs.
mod Inputs
mod Commands
mod Figures
mod Lookups
