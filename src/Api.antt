-- ===== src/Api.antt =====
-- The HTTP layer of apps/api/src: what a request carries, the zod schemas of the controllers, the
-- controllers behind their guards, and the answer that a client gets.
pub mod Wire
pub mod Schemas
pub mod Controllers
pub mod Routes
pub mod Reads
pub mod Writes
pub mod Served
pub mod BelowStaff
pub mod Yields
pub mod Bounds
