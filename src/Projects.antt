-- ===== src/Projects.antt =====
-- apps/projects: the team of a project, and the checks on its fields.
pub mod Team
pub mod Fields
pub mod Library
pub mod Links
pub mod Duplicate
