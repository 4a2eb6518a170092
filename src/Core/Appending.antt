-- ===== src/Core/Appending.antt =====
-- `append_log_entry`: what a leader's log is afterwards.
use raft_vibe.Prelude.{
  ℕ, zero, suc, ◌+◌, ◌-◌, ◌<◌, ◌≡◌, refl, String, some, List, [], ◌∷◌, ◌++◌, length, get_elem?,
  length-append, add_u64, u64_mod, arith,
}
use raft_vibe.Types.{LogEntry, leader}
use raft_vibe.Storage.{Storage}
use raft_vibe.Storage.Reliable.{Reliable}
use raft_vibe.Core.State.{RaftCore}
use raft_vibe.Core.Persist.{persist_log_entry}
use raft_vibe.Core.Query.{last_log_index, get_log_entry}
use raft_vibe.Core.Leader.{append_log_entry}
use raft_vibe.Core.Log.{Contiguous-append, last_log_index_lem}
use raft_vibe.Core.LogOk.{LogOk}

-- `c'` is `c` with the entry `e` for the command at the end of its log.
pub record Appended {S M : Type 0} (c : RaftCore S M) (command : String) (e : LogEntry)
    (c' : RaftCore S M) : Type 0 where
  pub term : e.term ≡ c.current_term
  pub text : e.command ≡ command
  pub index : e.index ≡ c.snapshot_last_index + length c.log + 1
  pub found : get_log_entry c' e.index ≡ some e
  pub earlier : (i : ℕ) → i < e.index → get_log_entry c' i ≡ get_log_entry c i
  pub log_ok : LogOk c'

at_end : {A : Type 0} (l : List A) (x : A) → get_elem? (l ++ x ∷ []) (length l) ≡ some x
at_end [] x = refl
at_end (y ∷ l) x = at_end l x

before_end :
    {A : Type 0} (l : List A) (x : A) (i : ℕ)
    → i < length l
    → get_elem? (l ++ x ∷ []) i ≡ get_elem? l i
before_end [] x i h = absurd (omega arith)
before_end (y ∷ l) x zero h = refl
before_end (y ∷ l) x (suc i) h = before_end l x i (omega arith)

module _ {S M : Type 0} ⦃st : Storage S⦄ ⦃safe : Reliable S⦄ where
  -- A well-formed leader over a storage that does not fail appends a command: the entry is in its
  -- term and behind the end of its log, it is found at its index, the entries before it stay, and
  -- the core stays well-formed, as long as the indices fit in 64 bits.
  pub append_log_entry_lem :
      (c : RaftCore S M) (command : String)
      → LogOk c
      → c.state ≡ leader
      → c.snapshot_last_index + length c.log + 2 < u64_mod
      → (e : LogEntry) × (c' : RaftCore S M) × (append_log_entry c command ≡ some (some e, c'))
        × Appended c command e c'
  unfolding append_log_entry persist_log_entry get_log_entry last_log_index
  append_log_entry_lem c command k leads room =
      let last = last_log_index_lem c k.contiguous in
      let e : LogEntry = record {
        term = c.current_term;
        index = c.snapshot_last_index + length c.log + 1;
        command = command;
      } in
      let c' : RaftCore S M = record c {
        storage = (st.append_log_entries c.storage (e ∷ [])).1;
        log = c.log ++ e ∷ [];
      } in
      let no_wrap : add_u64 (last_log_index c) 1 ≡ c.snapshot_last_index + length c.log + 1 =
        omega (arith, last) in
      let len : length (c.log ++ e ∷ []) ≡ length c.log + 1 =
        omega (arith, length-append c.log (e ∷ [])) in
      let at : c.snapshot_last_index + length c.log + 1 - c.snapshot_last_index - 1 ≡ length c.log =
        omega arith in
      (
        e,
        c',
        rw (leads, no_wrap) (ground (arith, safe.append_ok c.storage (e ∷ []))),
        record {
          term = refl;
          text = refl;
          index = refl;
          found = ground (arith, at, at_end c.log e);
          earlier = λ i h. ground (arith, before_end c.log e (i - c.snapshot_last_index - 1));
          log_ok = record {
            contiguous = Contiguous-append c.snapshot_last_index c.log e k.contiguous refl;
            snapshot_le = k.snapshot_le;
            applied_le = k.applied_le;
            commit_le = omega (arith, len, k.commit_le);
            fits = omega (arith, len);
          };
        },
      )
