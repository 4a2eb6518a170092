-- ===== src/Core/Persist.antt =====
-- The persistence helpers of `RaftCore`: memory and storage are written together.
use raft_vibe.Prelude.{
  ℕ, Option, none, some, [], ◌∷◌, ◌++◌, ◌>>=◌, expect, length, take, ltb, sub_u64, if◌then◌else◌,
}
use raft_vibe.Types.{LogEntry}
use raft_vibe.Storage.{Storage}
use raft_vibe.Core.State.{RaftCore}

module _ {S M : Type 0} ⦃st : Storage S⦄ where
  unfoldable pub set_term : RaftCore S M → ℕ → Option (RaftCore S M)
  set_term c term = do
    s ← expect (st.save_term c.storage term)
    some (record c { current_term = term; storage = s })

  unfoldable pub set_voted_for : RaftCore S M → Option ℕ → Option (RaftCore S M)
  set_voted_for c vote = do
    s ← expect (st.save_voted_for c.storage vote)
    some (record c { voted_for = vote; storage = s })

  unfoldable pub update_term : RaftCore S M → ℕ → Option (RaftCore S M)
  update_term c new_term = do c₁ ← set_term c new_term; set_voted_for c₁ none

  unfoldable pub persist_log_entry : RaftCore S M → LogEntry → Option (RaftCore S M)
  persist_log_entry c entry = do
    s ← expect (st.append_log_entries c.storage (entry ∷ []))
    some (record c { log = c.log ++ entry ∷ []; storage = s })

  -- The position is `from_index - 1`, whatever the snapshot boundary is.
  unfoldable pub persist_truncate_log : RaftCore S M → ℕ → Option (RaftCore S M)
  persist_truncate_log c from_index =
      let truncate_pos = sub_u64 from_index 1 in
      if ltb truncate_pos (length c.log)
      then (do
        s ← expect (st.truncate_log c.storage from_index)
        some (record c { log = take truncate_pos c.log; storage = s }))
      else some c
