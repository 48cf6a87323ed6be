-- ===== src/Filters.antt =====
-- The filters under filter/. Each is a configuration, the defaults that `Run` fills in, and the
-- handler that it puts around the next one.
pub mod Override
pub mod AuthBasic
pub mod Security
pub mod Logs
pub mod Multipart
pub mod Cors
pub mod Etag
pub mod Gzip
pub mod Limits
