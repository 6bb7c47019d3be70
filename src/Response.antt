-- ===== src/Response.antt =====
-- src/resource/attribute_filter.rs: what a response shows of a resource.
pub mod Nulls
pub mod Attributes
