-- ===== src/Buffer/Spec.antt =====
-- What the methods of a scope do to its contents, stated on the plain list of items.
pub mod Replace
pub mod Append
pub mod Delete
pub mod Read
pub mod Counter
pub mod Upsert
pub mod RoundTrip
