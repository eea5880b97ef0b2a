-- ===== src/Jpeg.antt =====
-- src/image_utils.c: the destination of libjpeg's output, and the pixels given to it.
pub mod Destination
pub mod Output
pub mod Pixels
pub mod Groups
pub mod Exact
pub mod Compress
pub mod Compressing
pub mod Depth
mod Tests
