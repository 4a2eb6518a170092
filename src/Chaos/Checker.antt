-- ===== src/Chaos/Checker.antt =====
-- `LinearizabilityChecker` of chaos-test/src/checker.rs.
use text.Mathlib.Text.{◌==◌}
use raft_vibe.Prelude.{
  ℕ, zero, suc, ◌+◌, ◌-◌, ◌^◌, String, Bool, true, false, not, ◌&&◌, Option, none, some, List, [],
  ◌∷◌, ◌++◌, length, leb, ltb, retain, map, min, max, if◌then◌else◌, ◌==◌ as same_index,
}
use raft_vibe.Chaos.History.{
  OpKind, read, write, OpResult, read_ok, write_ok, error, Operation, is_write, is_error, History,
  ops_for_key, sort_by,
}

-- The texts of `CheckResult::error`, with the values that are formatted into them. `empty` is the
-- default.
pub data Reason : Type 0 where
  never_written : Option String → Reason
  stale_read : ℕ → String → ℕ → Reason
  no_linearization : Reason
  at_key : String → Reason → Reason
  empty : Reason

pub record CheckResult : Type 0 where
  pub is_linearizable : Bool
  pub linearization : Option (List ℕ)
  pub error_text : Option Reason

abbrev pub linearizable : List ℕ → CheckResult
linearizable order = record {
  is_linearizable = true;
  linearization = some order;
  error_text = none;
}

abbrev pub not_linearizable : Reason → CheckResult
not_linearizable reason = record {
  is_linearizable = false;
  linearization = none;
  error_text = some reason;
}

-- `RegisterModel` is its value.
abbrev pub RegisterModel : Type 0
RegisterModel = Option String

-- `==` on `Option<String>`
abbrev pub same_value : Option String → Option String → Bool
same_value none none = true
same_value none (some b) = false
same_value (some a) none = false
same_value (some a) (some b) = a == b

-- `none` is `(false, model)`.
abbrev pub outcome : OpKind → OpResult → RegisterModel → Option RegisterModel
outcome (write value) write_ok model = some (some value)
outcome read (read_ok value) model = if same_value model value then some model else none
outcome (write value) (read_ok _) model = none
outcome (write value) (error _) model = none
outcome read write_ok model = none
outcome read (error _) model = none

unfoldable pub try_apply : Operation → RegisterModel → Option RegisterModel
try_apply op model = outcome op.kind op.result model

unfoldable pub minimum : List ℕ → Option ℕ
minimum [] = none
minimum (x ∷ xs) = elim (minimum xs) [ none ↦ some x | some m ↦ some (min x m) ]

abbrev pub unwrap_or : Option ℕ → ℕ → ℕ
unwrap_or none d = d
unwrap_or (some x) d = x

-- `filter(|&i| i != candidate_idx)`
abbrev pub without : ℕ → List ℕ → List ℕ
without i l = retain (λ j. not (same_index j i)) l

-- `ops[i]`
module _ (ops : ℕ → Operation) where
  unfoldable pub min_complete : List ℕ → ℕ
  min_complete required = unwrap_or (minimum (map (λ i. (ops i).complete_ts) required)) (2 ^ 64 - 1)

  abbrev pub is_candidate : ℕ → ℕ → ℕ → Bool
  is_candidate deadline frontier i =
      leb (ops i).invoke_ts deadline && leb frontier (ops i).complete_ts

  unfoldable pub eligible : ℕ → ℕ → Bool → List ℕ → List (ℕ × Bool)
  eligible deadline frontier is_optional l =
      map (λ i. (i, is_optional)) (retain (is_candidate deadline frontier) l)

  -- The comparison of `candidates.sort_by`, as "less".
  abbrev pub comes_first : ℕ × Bool → ℕ × Bool → Bool
  comes_first (a, _) (b, _) =
      if ltb (ops a).invoke_ts (ops b).invoke_ts
      then true
      else same_index (ops a).invoke_ts (ops b).invoke_ts
        && is_write (ops a)
        && not (is_write (ops b))

  unfoldable pub candidates : List ℕ → List ℕ → ℕ → List (ℕ × Bool)
  unfolding eligible
  candidates required optional frontier = sort_by comes_first (
      eligible (min_complete required) frontier false required
      ++ eligible (min_complete required) frontier true optional)

  -- The rest of a search: the required and the optional indices, the model, the frontier and the
  -- linearization so far. `some` is `true` with the vector as it is left; where the result is
  -- `false`, what was pushed has been popped.
  abbrev pub Rest : Type 0
  Rest = List ℕ → List ℕ → RegisterModel → ℕ → List ℕ → Option (List ℕ)

  -- The `for` over the candidates, with the recursive call as `next`.
  unfoldable pub try_each : Rest → List (ℕ × Bool) → Rest
  try_each next [] required optional model frontier linearization = none
  try_each next ((i, is_optional) ∷ rest) required optional model frontier linearization =
      let others = try_each next rest required optional model frontier linearization in
      elim (try_apply (ops i) model) [
        | none ↦ others
        | some model' ↦
            elim (next (if is_optional then required else without i required)
              (if is_optional then without i optional else optional) model'
              (max frontier (ops i).invoke_ts) (linearization ++ (ops i).id ∷ [])) [
                | some found ↦ some found
                | none ↦ others
              ]
      ]

  -- A call places one operation, so the depth is at most the number of operations: the fuel.
  unfoldable pub search : ℕ → Rest
  search fuel [] optional model frontier linearization = some linearization
  search zero (r ∷ required) optional model frontier linearization = none
  search (suc fuel) (r ∷ required) optional model frontier linearization =
      try_each (search fuel) (candidates (r ∷ required) optional frontier) (r ∷ required) optional
        model frontier linearization

-- `Vec` of indices from `lo` on.
abbrev pub range_from : ℕ → ℕ → List ℕ
range_from lo zero = []
range_from lo (suc n) = lo ∷ range_from (lo + 1) n

-- `written_values.contains`: the value of a write in one of the lists, or the initial one.
unfoldable pub is_written : List Operation → Option String → Bool
is_written [] value = same_value none value
is_written (op ∷ ops) value =
    let rest = is_written ops value in
    elim op.kind [ read ↦ rest | write v ↦ if same_value (some v) value then true else rest ]

-- The value that a read has returned.
abbrev pub returned : OpKind → OpResult → Option (Option String)
returned read (read_ok value) = some value
returned read write_ok = none
returned read (error _) = none
returned (write _) result = none

unfoldable pub read_value : Operation → Option (Option String)
read_value op = returned op.kind op.result

-- The first read whose value was never written.
unfoldable pub find_never_written : List Operation → List Operation → Option Reason
find_never_written writes [] = none
find_never_written writes (op ∷ ops) =
    let rest = find_never_written writes ops in
    elim (read_value op) [
      | none ↦ rest
      | some value ↦ if is_written writes value then rest else some (never_written value)
    ]

-- The first write that was complete before the time.
unfoldable pub find_complete_write : List Operation → ℕ → Option Reason
find_complete_write [] ts = none
find_complete_write (op ∷ ops) ts =
    let rest = find_complete_write ops ts in
    elim op.kind [
      | read ↦ rest
      | write value ↦
          if ltb op.complete_ts ts then some (stale_read ts value op.complete_ts) else rest
    ]

-- The first read of the initial state that started after a confirmed write was complete.
unfoldable pub find_stale : List Operation → List Operation → Option Reason
unfolding find_complete_write
find_stale all [] = none
find_stale all (op ∷ ops) =
    let rest = find_stale all ops in
    elim (read_value op) [
      | none ↦ rest
      | some none ↦ elim (find_complete_write all op.invoke_ts) [ some r ↦ some r | none ↦ rest ]
      | some (some _) ↦ rest
    ]

unfoldable pub max_ts : List Operation → ℕ
max_ts [] = 0
max_ts (op ∷ ops) = max op.complete_ts (max_ts ops)

-- An indeterminate write, as if it succeeded at some time up to the end of the history.
unfoldable pub extended : ℕ → Operation → Operation
extended ts op = record op { complete_ts = ts; result = write_ok }

abbrev nowhere : Operation
nowhere = record {
  id = 0;
  client_id = 0;
  key = "";
  kind = read;
  invoke_ts = 0;
  complete_ts = 0;
  result = write_ok;
}

-- `all_ops[i]`; the checker makes no index outside the list.
unfoldable pub get_or : List Operation → ℕ → Operation
get_or [] i = nowhere
get_or (op ∷ ops) zero = op
get_or (op ∷ ops) (suc i) = get_or ops i

unfoldable pub all_ops : List Operation → List Operation → List Operation
all_ops ops indeterminate_writes =
    ops ++ map (extended (max_ts (ops ++ indeterminate_writes))) indeterminate_writes

unfoldable pub search_all : List Operation → List Operation → Option (List ℕ)
search_all ops indeterminate_writes =
    let n : ℕ = length ops in
    let m : ℕ = length indeterminate_writes in
    search (get_or (all_ops ops indeterminate_writes)) (n + m) (range_from 0 n) (range_from n m)
      none 0 []

unfoldable pub check_single_key : List Operation → List Operation → CheckResult
unfolding search_all
check_single_key [] [] = linearizable []
check_single_key ops indeterminate_writes =
    elim (find_never_written (ops ++ indeterminate_writes) ops) [
      | some reason ↦ not_linearizable reason
      | none ↦ elim (find_stale ops ops) [
        | some reason ↦ not_linearizable reason
        | none ↦ elim (search_all ops indeterminate_writes) [
          | some order ↦ linearizable order
          | none ↦ not_linearizable no_linearization
        ]
      ]
    ]

unfoldable pub confirmed : List Operation → List Operation
confirmed ops = retain (λ op. not (is_error op.result)) ops

unfoldable pub indeterminate : List Operation → List Operation
indeterminate ops = retain (λ op. is_write op && is_error op.result) ops

abbrev unwrap_or_default : Option Reason → Reason
unwrap_or_default none = empty
unwrap_or_default (some r) = r

abbrev unwrap_order : Option (List ℕ) → List ℕ
unwrap_order none = []
unwrap_order (some order) = order

-- The loop of `check` over the keys in some order; the list is `all_linearizations`. A key without
-- operations to place adds nothing in either form.
unfoldable pub check_keys : History → List String → List ℕ → CheckResult
check_keys h [] found = linearizable found
check_keys h (key ∷ keys) found =
    let ops = ops_for_key h key in
    let result = check_single_key (confirmed ops) (indeterminate ops) in
    let rest = check_keys h keys (found ++ unwrap_order result.linearization) in
    if result.is_linearizable
    then rest
    else not_linearizable (at_key key (unwrap_or_default result.error_text))
