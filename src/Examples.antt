-- ===== src/Examples.antt =====
-- Concrete runs: the data they share, and the theorems at it.
mod Data
mod Hexed
mod Uploads
mod Reads
mod Histories
mod Comparisons
mod Compactions
mod Routes
mod Served
mod Interleaved
mod Start
