-- ===== src/Cluster.antt =====
-- Several nodes of src/core/raft_core.rs and src/core/raft_node.rs that vote for each other.
pub mod Quorum
pub mod World
pub mod Voting
pub mod Safety
pub mod VoteSteps
pub mod Replies
pub mod Elections
mod Tests
