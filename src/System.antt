-- ===== src/System.antt =====
-- The program as a whole: the requests and jobs that run one after the other on the shared state, and
-- the changes that they commit.
pub mod Changes
pub mod Bank
pub mod Refines
pub mod Commits
pub mod Opens
pub mod Steps
pub mod Refinement
pub mod Finality
pub mod Records
