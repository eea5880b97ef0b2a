-- ===== src/ColorDetect.antt =====
-- src/color_detect.c: blobs of one colour in the image of detected colours.
pub mod Blob
pub mod Merge
pub mod Detect
pub mod Draw
pub mod Table
pub mod Containing
pub mod Largest
pub mod Boxes
pub mod Drawing
pub mod Color
pub mod Index
pub mod Indexed
pub mod Shown
pub mod Composed
pub mod Line
pub mod Written
pub mod Report
pub mod Reported
mod Tests
mod CameraTests
