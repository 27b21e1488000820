-- ===== src/Examples.antt =====
-- Concrete inputs, and the theorems applied to them. `double` is instantiated by thousandths.
mod Data
mod Summary
mod History
mod Sources
mod Disk
mod Documents
mod Machine
mod Start
