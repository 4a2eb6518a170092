-- ===== src/Machine/Kv.antt =====
-- `KeyValueStore` of src/state_machine/kv.rs.
use Prim.Native.Char.{code}
use Prim.Native.String.{◌++◌}
use text.Mathlib.Text.{◌==◌}
use raft_vibe.Prelude.{
  ℕ, zero, suc, String, Option, none, some, List, [], ◌∷◌, Result, ok, err, if◌then◌else◌,
  ◌==◌ as same_code,
}
use raft_vibe.Types.{ApplyResult, Bytes, noop_command}
use raft_vibe.Machine.{Machine}
use raft_vibe.Machine.Dict
use raft_vibe.Machine.Dict.{Dict}

pub record KeyValueStore : Type 0 where
  pub entries : Dict

-- A text up to its first space, and what follows that space.
unfoldable pub split_first : String → String × Option String
split_first String.[] = (String.[], none)
split_first (String.◌∷◌ c s) =
    let (a, rest) = split_first s in
    if same_code (code c) b' ' then (String.[], some s) else (String.◌∷◌ c a, rest)

-- `str::splitn(n, ' ')`
unfoldable pub splitn : ℕ → String → List String
unfolding split_first
splitn zero s = []
splitn (suc zero) s = s ∷ []
splitn (suc (suc n)) s =
    let (a, rest) = split_first s in elim rest [ none ↦ a ∷ [] | some t ↦ a ∷ splitn (suc n) t ]

abbrev pub unknown_command : String → String
unknown_command command = "unknown command: " ++ command

validate_parts : String → List String → Result String (Unit {0})
validate_parts command (verb ∷ key ∷ value ∷ []) =
    if verb == "SET" then ok tt else err (unknown_command command)
validate_parts command (verb ∷ key ∷ []) =
    if verb == "DELETE" then ok tt else err (unknown_command command)
validate_parts command _ = err (unknown_command command)

unfoldable pub validate : KeyValueStore → String → Result String (Unit {0})
unfolding validate_parts
validate kv command =
    if command == noop_command then ok tt else validate_parts command (splitn 3 command)

apply_parts : KeyValueStore → String → List String → ApplyResult × KeyValueStore
apply_parts kv command (verb ∷ key ∷ value ∷ []) =
    if verb == "SET"
    then (ok "", record { entries = Dict.put kv.entries key value })
    else (err (unknown_command command), kv)
apply_parts kv command (verb ∷ key ∷ []) =
    if verb == "DELETE"
    then elim (Dict.get kv.entries key) [
      | some _ ↦ (ok "", record { entries = Dict.remove kv.entries key })
      | none ↦ (err "NOT_FOUND", kv)
    ]
    else (err (unknown_command command), kv)
apply_parts kv command _ = (err (unknown_command command), kv)

unfoldable pub apply : KeyValueStore → String → ApplyResult × KeyValueStore
unfolding apply_parts
apply kv command =
    if command == noop_command then (ok "", kv) else apply_parts kv command (splitn 3 command)

-- `KeyValueStore::get`
unfoldable pub get : KeyValueStore → String → Option String
get kv key = Dict.get kv.entries key

-- `serde_json` on the map; an error by its text.
pub record Json : Type 0 where
  pub to_vec : Dict → Result String Bytes
  pub from_slice : Bytes → Result String Dict

abbrev snapshot_result : Result String Bytes → Result String Bytes
snapshot_result (ok bytes) = ok bytes
snapshot_result (err e) = err ("snapshot serialization failed: " ++ e)

abbrev restore_result :
    KeyValueStore → Result String Dict → Result String (Unit {0}) × KeyValueStore
restore_result kv (ok d) = (ok tt, record { entries = d })
restore_result kv (err e) = (err ("snapshot deserialization failed: " ++ e), kv)

module _ (json : Json) where
  unfoldable pub snapshot : KeyValueStore → Result String Bytes
  snapshot kv = snapshot_result (json.to_vec kv.entries)

  unfoldable pub restore : KeyValueStore → Bytes → Result String (Unit {0}) × KeyValueStore
  restore kv bytes = restore_result kv (json.from_slice bytes)

  abbrev pub kv_machine : Machine KeyValueStore
  kv_machine = record { validate = validate; apply = apply; snapshot = snapshot; restore = restore }
