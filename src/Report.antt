-- ===== src/Report.antt =====
-- The texts of src/stripe_filter.c and src/color_detect.c that list what was found: both functions build
-- them in a static buffer by the same loop. The buffer is the text in it; a text and its NUL that do
-- not fit are a write out of bounds, `none`.
mod Loop
pub mod Fitting
unfoldable pub use Loop.*
