-- ===== src/SimpleUtils.antt =====
-- base/simple_utils.go: the helpers on lists of vbuckets and sequence numbers.
pub mod Search
pub mod Vbuckets
