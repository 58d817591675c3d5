-- ===== src/Image.antt =====
-- packages/image: cropping PNG images row by row.
pub mod Geometry
pub mod Filters
pub mod Assembler
mod Examples
