-- ===== src/Stats.antt =====
-- app/entropy_stats.c: the statistics of bytes and of timing samples. The `double` operations are an
-- interface; the counting under them is exact.
pub mod Histogram
pub mod Bits
pub mod Rct
pub mod CritBinom
pub mod Apt
pub mod Report
