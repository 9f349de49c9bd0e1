-- ===== src/Samples/Publishing.antt =====
-- The publishing service on the sample worlds: requests and ticks, and the runs of a worker.
pub mod Requests
pub mod Runs
