-- ===== src/Access.antt =====
-- Who may do what inside an organization: roles, members, invitations and the review of designs.
pub mod Roles
pub mod Members
pub mod Approval
pub mod Review
pub mod Invites
pub mod Joining
