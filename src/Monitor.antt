-- ===== src/Monitor.antt =====
-- ptop.c: the sampling loop and its parts.
pub mod Activity
pub mod Ranking
pub mod Sample
pub mod Collect
pub mod Cycle
pub mod Loop
pub mod Run
