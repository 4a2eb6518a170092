-- ===== src/Api/Commands.antt =====
-- The commands that the handlers of src/api/client_http.rs write, as src/state_machine/kv.rs reads
-- them.
use Prim.Native.Char.{code}
use Prim.Native.String.{◌++◌}
use text.Mathlib.Text.{◌==◌}
use text.Mathlib.TextLemmas.{nil-append, cons-append, append_assoc}
use text.Mathlib.TextEquality.{eq_iff}
use raft_vibe.Prelude.{
  ℕ, suc, ◌≡◌, ◌≢◌, refl, sym, ap, ◌∙◌, String, none, some, [], ◌∷◌, ok, if◌then◌else◌, Bool-cases,
  inl, inr, false, arith,
}
use raft_vibe.Types.{noop_command}
use raft_vibe.Machine.Kv.{KeyValueStore, split_first, splitn, validate, apply, get}
use raft_vibe.Machine.Dict as Dict
use raft_vibe.Machine.Dict.{get-put, get-remove}
use raft_vibe.Api.Handlers.{set_command}

unfoldable pub SpaceFree : String → Type 0
SpaceFree String.[] = Unit
SpaceFree (String.◌∷◌ c s) = (code c ≢ b' ') × SpaceFree s

pub split_first-spaced : (a s : String) → SpaceFree a → split_first (a ++ (" " ++ s)) ≡ (a, some s)
unfolding SpaceFree split_first
split_first-spaced String.[] s free =
    let e : " " ++ s ≡ String.◌∷◌ " " s =
      cons-append " " "" s ∙ ap (String.◌∷◌ " ") (nil-append s) in
    rw (nil-append (" " ++ s), e) refl
split_first-spaced (String.◌∷◌ c a) s free =
    let rest = split_first-spaced a s free.1 in
    rw (cons-append c a (" " ++ s), rest) (ground (arith, free.0))

split_first-free : (a : String) → SpaceFree a → split_first a ≡ (a, none)
unfolding SpaceFree split_first
split_first-free String.[] free = refl
split_first-free (String.◌∷◌ c a) free =
    let rest = split_first-free a free.1 in rw rest (ground (arith, free.0))

set-SpaceFree : SpaceFree "SET"
unfolding SpaceFree
set-SpaceFree = (omega arith, (omega arith, (omega arith, tt)))

pub splitn-spaced :
    (n : ℕ) (a s : String)
    → SpaceFree a
    → splitn (suc (suc n)) (a ++ (" " ++ s)) ≡ a ∷ splitn (suc n) s
unfolding splitn
splitn-spaced n a s free = let split = split_first-spaced a s free in rw (splitn, split, split) refl

pub splitn-free : (n : ℕ) (a : String) → SpaceFree a → splitn (suc (suc n)) a ≡ a ∷ []
unfolding splitn
splitn-free n a free = let split = split_first-free a free in rw (splitn, split, split) refl

-- The command of `handle_kv_set`, taken apart.
pub splitn_set :
    (key value : String)
    → SpaceFree key
    → splitn 3 (set_command key value) ≡ "SET" ∷ key ∷ value ∷ []
unfolding splitn
splitn_set key value free =
    let verb = splitn-spaced 1 "SET" (key ++ (" " ++ value)) set-SpaceFree in
    let rest = splitn-spaced 0 key value free in
    let whole : set_command key value ≡ "SET" ++ (" " ++ (key ++ (" " ++ value))) =
      append_assoc "SET" " " (key ++ (" " ++ value)) in
    ap (splitn 3) whole ∙ verb ∙ ap (λ r. "SET" ∷ r) rest

-- A command that starts with a verb and a space is not the no-op.
not_noop :
    (command a s : String) → split_first command ≡ (a, some s) → (command == noop_command) ≡ false
unfolding split_first
not_noop command a s h = elim (Bool-cases (command == noop_command)) [
  | inr differs ↦ differs
  | inl same ↦
      let e : command ≡ noop_command = (eq_iff command noop_command).0 same in
      let k : split_first noop_command ≡ (a, some s) = ap split_first (sym e) ∙ h in
      absurd (ground (arith, k))
]

-- `set_command` taken up to its first space.
set_verb :
    (key value : String)
    → split_first (set_command key value) ≡ ("SET", some (key ++ (" " ++ value)))
set_verb key value =
    let whole : set_command key value ≡ "SET" ++ (" " ++ (key ++ (" " ++ value))) =
      append_assoc "SET" " " (key ++ (" " ++ value)) in
    ap split_first whole ∙ split_first-spaced "SET" (key ++ (" " ++ value)) set-SpaceFree

pub apply_set :
    (kv : KeyValueStore) (key value : String)
    → SpaceFree key
    → apply kv (set_command key value) ≡ (ok "", record { entries = Dict.put kv.entries key value })
unfolding apply
apply_set kv key value free =
    let other =
      not_noop (set_command key value) "SET" (key ++ (" " ++ value)) (set_verb key value) in
    let parts = splitn_set key value free in rw (other, parts) refl

-- A key without a space: the command that `handle_kv_set` submits is valid, and its application
-- succeeds, after which a read gives the value under that key and what it gave before under any
-- other.
pub set_get :
    (kv : KeyValueStore) (key value j : String)
    → SpaceFree key
    → (validate kv (set_command key value) ≡ ok tt)
      × (kv' : KeyValueStore) × (apply kv (set_command key value) ≡ (ok "", kv'))
      × (get kv' j ≡ (if key == j then some value else get kv j))
unfolding validate get
set_get kv key value j free =
    let other =
      not_noop (set_command key value) "SET" (key ++ (" " ++ value)) (set_verb key value) in
    let parts = splitn_set key value free in
    (
      rw (other, parts) refl,
      record { entries = Dict.put kv.entries key value },
      apply_set kv key value free,
      get-put kv.entries key value j,
    )

-- A key with a space: `handle_kv_set` sets the part of the key before its first space to the rest
-- of the key and the value, and under any other key a read gives what it gave before.
pub set_get_spaced :
    (kv : KeyValueStore) (head tail value j : String)
    → SpaceFree head
    → (kv' : KeyValueStore) × (apply kv (set_command (head ++ (" " ++ tail)) value) ≡ (ok "", kv'))
      × (get kv' j ≡ (if head == j then some (tail ++ (" " ++ value)) else get kv j))
set_get_spaced kv head tail value j free =
    let e : set_command (head ++ (" " ++ tail)) value ≡ set_command head (tail ++ (" " ++ value)) =
      ap (λ t. "SET " ++ t)
        (append_assoc head (" " ++ tail) (" " ++ value)
          ∙ ap (λ t. head ++ t) (append_assoc " " tail (" " ++ value))) in
    let (v, kv', a, g) = set_get kv head (tail ++ (" " ++ value)) j free in
    (kv', ap (apply kv) e ∙ a, g)
