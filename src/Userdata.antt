-- ===== src/Userdata.antt =====
-- src/userdata, and the data of user-data in src/lib.rs.
pub mod ContentType
pub mod QuotedPrintable
pub mod Slices
pub mod Mime
pub mod Process
pub mod Types
