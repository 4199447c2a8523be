-- ===== src/Tests.antt =====
-- Runs of the code on small inputs.
mod Setup
mod Books
mod Tables
mod Clashes
mod Parts
mod Levels
mod Streams
mod Rings
mod Stocks
mod Latencies
mod Replays
mod Renewals
mod Wholes
