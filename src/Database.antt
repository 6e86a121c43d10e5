-- ===== src/Database.antt =====
-- packages/models and packages/repositories: the rows of the tables, the
-- constraints of their tables, and the repositories' statements over them.
pub mod Tables
pub mod Accounts
pub mod Sessions
pub mod Directory
pub mod Authorization
