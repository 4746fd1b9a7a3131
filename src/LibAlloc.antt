-- ===== src/LibAlloc.antt =====
-- libraries/LibAlloc: pointer arithmetic, the slab and the span's block arithmetic.
pub mod Pointers
pub mod Slab
pub mod Bookkeeper
pub mod Buckets
pub mod Span
pub mod SpanSearch
