-- ===== src/Chaos/History.antt =====
-- chaos-test/src/history.rs: operations with their intervals, and the history of a run.
use text.Mathlib.Text.{◌==◌}
use raft_vibe.Prelude.{
  ℕ, String, Bool, true, false, not, ◌&&◌, Option, List, [], ◌∷◌, ◌++◌, leb, ltb, retain,
  if◌then◌else◌,
}

pub data OpKind : Type 0 where
  read : OpKind
  write : (value : String) → OpKind

pub data OpResult : Type 0 where
  read_ok : Option String → OpResult
  write_ok : OpResult
  error : String → OpResult

-- A `Timestamp` and a `ClientId` are the numbers that they wrap.
pub record Operation : Type 0 where
  pub id : ℕ
  pub client_id : ℕ
  pub key : String
  pub kind : OpKind
  pub invoke_ts : ℕ
  pub complete_ts : ℕ
  pub result : OpResult

unfoldable pub is_read : Operation → Bool
is_read op = elim op.kind [ read ↦ true | write _ ↦ false ]

unfoldable pub is_write : Operation → Bool
is_write op = elim op.kind [ read ↦ false | write _ ↦ true ]

unfoldable pub overlaps : Operation → Operation → Bool
overlaps a b = leb a.invoke_ts b.complete_ts && leb b.invoke_ts a.complete_ts

unfoldable pub could_linearize_at : Operation → ℕ → Bool
could_linearize_at op ts = leb op.invoke_ts ts && leb ts op.complete_ts

-- The test of the filters on `OpResult::Error(_)`.
abbrev pub is_error : OpResult → Bool
is_error (error _) = true
is_error _ = false

-- `History`, without its clock: the time of an operation is recorded in it.
pub record History : Type 0 where
  pub ops : List Operation

unfoldable pub new : History
new = record { ops = [] }

unfoldable pub add : History → Operation → History
add h op = record { ops = h.ops ++ op ∷ [] }

unfoldable pub successful_ops : History → List Operation
successful_ops h = retain (λ op. not (is_error op.result)) h.ops

unfoldable pub ops_for_key : History → String → List Operation
ops_for_key h key = retain (λ op. op.key == key) h.ops

-- A stable sort: `x`, which stood before `ys`, is put before those that are equal to it.
module _ {A : Type 0} (less : A → A → Bool) where
  unfoldable pub insert_sorted : A → List A → List A
  insert_sorted x [] = x ∷ []
  insert_sorted x (y ∷ ys) =
      let rest = insert_sorted x ys in if less y x then y ∷ rest else x ∷ y ∷ ys

  unfoldable pub sort_by : List A → List A
  unfolding insert_sorted
  sort_by [] = []
  sort_by (x ∷ xs) = insert_sorted x (sort_by xs)

unfoldable pub sorted_by_invoke_time : History → List Operation
sorted_by_invoke_time h = sort_by (λ a b. ltb a.invoke_ts b.invoke_ts) h.ops

abbrev contains_key : List String → String → Bool
contains_key [] key = false
contains_key (k ∷ ks) key = if k == key then true else contains_key ks key

keys_of : List Operation → List String
keys_of [] = []
keys_of (op ∷ ops) =
    let rest = keys_of ops in if contains_key rest op.key then rest else op.key ∷ rest

-- The set as a list without repetition. In which order a set is walked is open, so what walks it
-- takes the order as an argument.
unfoldable pub unique_keys : History → List String
unfolding keys_of
unique_keys h = keys_of h.ops
