-- ===== src/Core.antt =====
-- `RaftCore` of src/core/raft_core.rs: the record, its methods in the order in which they call one
-- another, and below them what they keep.
pub mod State
pub mod Persist
pub mod Query
pub mod Apply
pub mod Append
pub mod Install
pub mod Election
pub mod Leader
pub mod Frame
pub mod Step
pub mod VoteSafety
pub mod VoteSteps
pub mod FollowerSteps
pub mod Calm
pub mod Candidacy
pub mod OneVote
pub mod Log
pub mod Compaction
pub mod LogOk
pub mod Applying
pub mod Merge
pub mod Conflict
pub mod Accepting
pub mod Replication
pub mod Answering
pub mod Holding
pub mod Committing
pub mod Leading
pub mod Electing
pub mod CommitRule
pub mod Installing
pub mod Hints
pub mod Appending
pub mod Samples
mod Tests
mod LogTests
