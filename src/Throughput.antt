-- ===== src/Throughput.antt =====
-- packages/testoperations/src/testoperations/throughput.py: iperf3 measurements.
pub mod Json
pub mod Documents
pub mod Sessions
pub mod Await
pub mod Concurrent
pub mod Retry
pub mod Rounds
pub mod Paths
pub mod External
mod Examples
