-- ===== src/Filters/Limits.antt =====
-- The filters under filter/limits: memory, rates of requests and usage by client.
pub mod Memory
pub mod Throttle
pub mod MemBucket
pub mod RedisBucket
pub mod Container
pub mod Usage
