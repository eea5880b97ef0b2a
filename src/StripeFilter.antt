-- ===== src/StripeFilter.antt =====
-- src/stripe_filter.c: gradients, clusters and features of the stripe detector.
pub mod Gradients
pub mod Clusters
pub mod Edges
pub mod Members
pub mod Features
pub mod Nearest
pub mod Stripes
pub mod Report
pub mod Reported
pub mod Annotate
pub mod Image
pub mod Annotated
pub mod Located
pub mod Centered
mod Tests
