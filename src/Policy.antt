-- ===== src/Policy.antt =====
-- src/policy: the parts of the policy component.
pub mod Status
pub mod Premium
pub mod Purchase
pub mod Confirm
pub mod Amend
