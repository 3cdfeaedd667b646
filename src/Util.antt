-- ===== src/Util.antt =====
-- pkg/util: pattern matching and merging of metadata, the SSL decision and the image versions.
-- `Capabilities` also fills the record of the cluster's API that the decision reads.
pub mod Regexp
pub mod Pattern
pub mod Metadata
pub mod Version
pub mod Text
pub mod File
pub mod Split
