-- ===== src/Chaos/Tests.antt =====
-- Runs of the checker of chaos-test/src/checker.rs.
use raft_vibe.Prelude.{ℕ, ◌≡◌, ◌↔◌, refl, true, none, some, List, [], ◌∷◌, All, arith}
use raft_vibe.Chaos.History.{
  OpKind, read, write, OpResult, read_ok, write_ok, error, Operation, History, is_write,
  ops_for_key, sort_by,
}
use raft_vibe.Chaos.Checker.{
  linearizable, not_linearizable, stale_read, never_written, at_key, range_from, get_or, search,
  check_single_key, check_keys, find_never_written, read_value, is_written, find_stale, try_each,
  candidates, all_ops, min_complete, minimum, extended, max_ts, try_apply, confirmed, indeterminate,
}
use raft_vibe.Chaos.Fuel.{search_depth}
use raft_vibe.Chaos.Verdict.{Linearizes, check_single_key_iff}
use raft_vibe.Chaos.Keys.{KeyLinearizes, check_keys_iff}

abbrev operation : ℕ → OpKind → ℕ → ℕ → OpResult → Operation
operation id kind invoke_ts complete_ts result = record {
  id = id;
  client_id = 1;
  key = "x";
  kind = kind;
  invoke_ts = invoke_ts;
  complete_ts = complete_ts;
  result = result;
}

-- A write, a read that overlaps it, and a read of a write whose request timed out.
abbrev writes_a : Operation
writes_a = operation 1 (write "a") 0 10 write_ok

abbrev reads_a : Operation
reads_a = operation 2 read 5 12 (read_ok (some "a"))

abbrev lost_b : Operation
lost_b = operation 3 (write "b") 3 4 (error "timeout")

abbrev reads_b : Operation
reads_b = operation 4 read 13 15 (read_ok (some "b"))

abbrev reads_nothing : Operation
reads_nothing = operation 5 read 13 15 (read_ok none)

abbrev run : History
run = record { ops = writes_a ∷ reads_a ∷ lost_b ∷ reads_b ∷ [] }

lost_write_is_used :
    check_single_key (writes_a ∷ reads_a ∷ reads_b ∷ []) (lost_b ∷ [])
    ≡ linearizable (1 ∷ 2 ∷ 3 ∷ 4 ∷ [])
unfolding check_single_key find_never_written read_value is_written find_stale search try_each
    candidates sort_by get_or all_ops min_complete minimum extended max_ts try_apply
lost_write_is_used = refl

no_such_write :
    check_single_key (writes_a ∷ reads_b ∷ []) [] ≡ not_linearizable (never_written (some "b"))
unfolding check_single_key find_never_written read_value is_written
no_such_write = refl

reads_too_late :
    check_keys (record { ops = writes_a ∷ reads_nothing ∷ [] }) ("x" ∷ []) []
    ≡ not_linearizable (at_key "x" (stale_read 13 "a" 10))
unfolding check_keys check_single_key confirmed ops_for_key find_never_written read_value is_written
    indeterminate is_write find_stale
reads_too_late = refl

search_depth_example :
    search (get_or (writes_a ∷ reads_a ∷ [])) 2 (range_from 0 2) [] none 0 []
    ≡ search (get_or (writes_a ∷ reads_a ∷ [])) 7 (range_from 0 2) [] none 0 []
search_depth_example =
    search_depth (get_or (writes_a ∷ reads_a ∷ [])) 2 7 (range_from 0 2) [] none 0 [] (omega arith)
      (omega arith)

check_single_key_iff_example :
    ((check_single_key (writes_a ∷ reads_a ∷ reads_b ∷ []) (lost_b ∷ [])).is_linearizable ≡ true)
    ↔ ((order : List ℕ) × Linearizes 100 (writes_a ∷ reads_a ∷ reads_b ∷ []) (lost_b ∷ []) order)
unfolding max_ts
check_single_key_iff_example =
    check_single_key_iff (writes_a ∷ reads_a ∷ reads_b ∷ []) (lost_b ∷ []) 100
      (omega arith, (omega arith, (omega arith, tt))) (omega arith, tt) (omega arith)

check_keys_iff_example :
    ((check_keys run ("x" ∷ []) []).is_linearizable ≡ true) ↔ All (KeyLinearizes 20 run) ("x" ∷ [])
check_keys_iff_example =
    check_keys_iff run ("x" ∷ []) [] 20
      (omega arith, (omega arith, (omega arith, (omega arith, tt))))
      (omega arith, (omega arith, (omega arith, (omega arith, tt))))
