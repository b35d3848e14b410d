-- ===== src/Policy.antt =====
-- resolution_policy.rs: the account policies, how one is resolved for an identity, and how media
-- versions are classified, filtered and selected under it. `Entries` and `Limit` have the
-- configuration and the order of limits, `Classify` and `Select` the two uses of a policy.
pub mod Limit
pub mod Entries
pub mod Classify
pub mod Select
pub mod Deserialize
pub mod Snapshot
