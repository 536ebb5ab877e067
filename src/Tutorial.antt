-- ===== src/Tutorial.antt =====
-- Example/Toturial-3: the programs that show what threads do to shared variables, with and without
-- critical sections.
pub mod Threads
pub mod Held
pub mod Moves
pub mod Order
pub mod Gate
pub mod Fair
pub mod Pool
pub mod Ended
pub mod Sections
pub mod Swap
pub mod Counters
pub mod Produce
