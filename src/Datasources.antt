-- ===== src/Datasources.antt =====
-- src/datasources. Requests go over an interface of the HTTP client.
pub mod Types
pub mod Http
pub mod Parts
pub mod Content
pub mod Dmi
pub mod NoCloud
pub mod Ec2
pub mod Gce
pub mod Azure
pub mod OpenStack
pub mod Mock
pub mod Detect
