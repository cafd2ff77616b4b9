-- ===== src/Collector/Tests.antt =====
-- Concrete switches, runners and polls, and the theorems of the collector at them.
mod Due
mod Polls
mod Schedules
mod Repeats
mod Stores
