-- ===== src/Storage/VoteLaws.antt =====
-- What src/storage/traits.rs promises about the term and the vote, and that `MemoryStorage` keeps it.
use raft_vibe.Prelude.{ℕ, ◌≡◌, refl, Option, some, List, ok, expect, arith}
use raft_vibe.Types.{LogEntry, Snapshot}
use raft_vibe.Storage.{Storage}
use raft_vibe.Storage.Memory.{MemoryStorage, memory_storage}

-- The two stores load the same term and the same vote.
pub record SameVote {S : Type 0} ⦃st : Storage S⦄ (s s' : S) : Type 0 where
  pub term : st.load_term s' ≡ st.load_term s
  pub vote : st.load_voted_for s' ≡ st.load_voted_for s

-- A save that is `Ok` can be loaded; what concerns the log or the snapshot leaves both alone.
pub record VoteLaws (S : Type 0) ⦃st : Storage S⦄ : Type 0 where
  pub load-save_term :
      (s : S) (term : ℕ) {s' : S}
      → expect (st.save_term s term) ≡ some s'
      → (st.load_term s' ≡ ok term) × (st.load_voted_for s' ≡ st.load_voted_for s)
  pub load-save_voted_for :
      (s : S) (vote : Option ℕ) {s' : S}
      → expect (st.save_voted_for s vote) ≡ some s'
      → (st.load_voted_for s' ≡ ok vote) × (st.load_term s' ≡ st.load_term s)
  pub append_keeps : (s : S) (es : List LogEntry) → SameVote s (st.append_log_entries s es).1
  pub truncate_keeps : (s : S) (index : ℕ) → SameVote s (st.truncate_log s index).1
  pub compact_keeps : (s : S) (index : ℕ) → SameVote s (st.compact_log s index).1
  pub save_snapshot_keeps : (s : S) (snap : Snapshot) → SameVote s (st.save_snapshot s snap).1

pub memory_save_term :
    (s : MemoryStorage) (term : ℕ) {s' : MemoryStorage}
    → expect (memory_storage.save_term s term) ≡ some s'
    → (memory_storage.load_term s' ≡ ok term)
      × (memory_storage.load_voted_for s' ≡ memory_storage.load_voted_for s)
memory_save_term s term h = ground arith

pub memory_save_voted_for :
    (s : MemoryStorage) (vote : Option ℕ) {s' : MemoryStorage}
    → expect (memory_storage.save_voted_for s vote) ≡ some s'
    → (memory_storage.load_voted_for s' ≡ ok vote)
      × (memory_storage.load_term s' ≡ memory_storage.load_term s)
memory_save_voted_for s vote h = ground arith

-- `MemoryStorage` keeps the promises.
instance abbrev pub memory_vote_laws : VoteLaws MemoryStorage
memory_vote_laws = record {
  load-save_term = memory_save_term;
  load-save_voted_for = memory_save_voted_for;
  append_keeps = λ s es. record { term = refl; vote = refl };
  truncate_keeps = λ s index. record { term = refl; vote = refl };
  compact_keeps = λ s index. record { term = refl; vote = refl };
  save_snapshot_keeps = λ s snap. record { term = refl; vote = refl };
}
