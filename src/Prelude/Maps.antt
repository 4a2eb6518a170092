-- ===== src/Prelude/Maps.antt =====
-- `HashMap<u64, u64>` as an association list: `insert` replaces, so a key stands there once.
use Prim.Native.Nat.{ℕ}
use mathlib.Core.Path.{◌≡◌, refl}
use mathlib.Core.Option.{Option, none, some}
use mathlib.Core.List.{List, [], ◌∷◌}
use native.Mathlib.Omega.{arith}
use raft_vibe.Prelude.Tests.{◌==◌, if◌then◌else◌}

abbrev pub Assoc : Type 0
Assoc = List (ℕ × ℕ)

unfoldable pub lookup : Assoc → ℕ → Option ℕ
lookup [] k = none
lookup ((j, v) ∷ m) k = if j == k then some v else lookup m k

unfoldable pub insert : Assoc → ℕ → ℕ → Assoc
insert [] k v = (k, v) ∷ []
insert ((j, w) ∷ m) k v = if j == k then (k, v) ∷ m else (j, w) ∷ insert m k v

-- `.get(&k).copied().unwrap_or(d)`
unfoldable pub lookup_or : Assoc → ℕ → ℕ → ℕ
lookup_or m k d = elim (lookup m k) [ none ↦ d | some v ↦ v ]

pub lookup-insert :
    (m : Assoc) (k v j : ℕ) → lookup (insert m k v) j ≡ (if k == j then some v else lookup m j)
unfolding lookup insert
lookup-insert [] k v j = refl
lookup-insert ((i, w) ∷ m) k v j = ground (arith, lookup-insert m k v j)

pub lookup_or-insert :
    (m : Assoc) (k v j d : ℕ)
    → lookup_or (insert m k v) j d ≡ (if k == j then v else lookup_or m j d)
unfolding lookup_or
lookup_or-insert m k v j d = ground (arith, lookup-insert m k v j)
