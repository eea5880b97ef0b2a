-- ===== src/Video.antt =====
-- src/v4l2uvc.c: retried device calls, and frames taken from the device.
pub mod Ioctl
pub mod Retries
pub mod Frames
pub mod Copied
pub mod Marked
pub mod Capture
pub mod Calls
pub mod Enumerate
pub mod Setup
pub mod Protocol
pub mod Listing
pub mod Preparing
pub mod Giving
pub mod Agreed
pub mod Allotted
pub mod Started
pub mod Yielding
pub mod Enumerated
mod Tests
