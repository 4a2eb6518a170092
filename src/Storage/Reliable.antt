-- ===== src/Storage/Reliable.antt =====
-- A storage whose writes succeed, as `MemoryStorage` does.
use raft_vibe.Prelude.{ℕ, ◌≡◌, refl, Option, List, ok}
use raft_vibe.Types.{LogEntry, Snapshot}
use raft_vibe.Storage.{Storage}
use raft_vibe.Storage.Memory.{MemoryStorage, memory_storage}

pub record Reliable (S : Type 0) ⦃st : Storage S⦄ : Type 0 where
  pub save_term_ok : (s : S) (term : ℕ) → (st.save_term s term).0 ≡ ok tt
  pub save_voted_for_ok : (s : S) (vote : Option ℕ) → (st.save_voted_for s vote).0 ≡ ok tt
  pub append_ok : (s : S) (es : List LogEntry) → (st.append_log_entries s es).0 ≡ ok tt
  pub truncate_ok : (s : S) (index : ℕ) → (st.truncate_log s index).0 ≡ ok tt
  pub compact_ok : (s : S) (index : ℕ) → (st.compact_log s index).0 ≡ ok tt
  pub save_snapshot_ok : (s : S) (snap : Snapshot) → (st.save_snapshot s snap).0 ≡ ok tt

instance abbrev pub memory_reliable : Reliable MemoryStorage
memory_reliable = record {
  save_term_ok = λ s term. refl;
  save_voted_for_ok = λ s vote. refl;
  append_ok = λ s es. refl;
  truncate_ok = λ s index. refl;
  compact_ok = λ s index. refl;
  save_snapshot_ok = λ s snap. refl;
}
