-- ===== src/Node.antt =====
-- `RaftNode` of src/core/raft_node.rs: requests, and the loops over the replies as they arrive.
pub mod Request
pub mod Replies
pub mod Server
pub mod StaleTerm
pub mod Confirm
pub mod Sending
mod Tests
pub mod Deciding
pub mod Submit
