-- ===== src/Mongo.antt =====
-- packages/mongo: files in GridFS.
pub mod GridFs
pub mod Migrations
mod Examples
