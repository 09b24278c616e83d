-- ===== src/ChangeControl/Tests.antt =====
-- A change of one file at concrete inputs.
mod Inputs
mod Runs
mod Witnesses
