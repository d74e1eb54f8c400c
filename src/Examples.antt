-- ===== src/Examples.antt =====
-- Programs on which the definitions run, and the theorems at concrete inputs.
mod Programs
mod Ranks
mod Nets
mod Exclusion
mod Wake
mod Runs
mod Handles
mod Setting
mod Captures
mod Drops
mod Waits
mod Commands
mod Witnesses
