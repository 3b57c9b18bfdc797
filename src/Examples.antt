-- ===== src/Examples.antt =====
-- Runs of the program on concrete input, at which the theorems apply.
mod Caches
mod Rollouts
mod Visibility
mod Captures
mod Catalogs
mod Routes
mod Streams
mod Recordings
mod Heads
mod Threads
mod Budgets
mod Rewrites
