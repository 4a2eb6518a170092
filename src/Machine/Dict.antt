-- ===== src/Machine/Dict.antt =====
-- `HashMap<String, String>` of src/state_machine/kv.rs as an association list. The program never
-- depends on the order of a map.
use text.Mathlib.Text.{◌==◌}
use text.Mathlib.TextEquality.{eq_iff}
use raft_vibe.Prelude.{◌≡◌, refl, String, Option, none, some, List, [], ◌∷◌, if◌then◌else◌, arith}

abbrev pub Dict : Type 0
Dict = List (String × String)

unfoldable pub get : Dict → String → Option String
get [] key = none
get ((k, v) ∷ d) key = if k == key then some v else get d key

unfoldable pub put : Dict → String → String → Dict
put [] key value = (key, value) ∷ []
put ((k, v) ∷ d) key value = if k == key then (key, value) ∷ d else (k, v) ∷ put d key value

unfoldable pub remove : Dict → String → Dict
remove [] key = []
remove ((k, v) ∷ d) key = let rest = remove d key in if k == key then rest else (k, v) ∷ rest

pub get-put : (d : Dict) (k v j : String) → get (put d k v) j ≡ (if k == j then some v else get d j)
unfolding get put
get-put [] k v j = refl
get-put ((i, w) ∷ d) k v j = ground (arith, eq_iff k j, eq_iff i k, eq_iff i j, get-put d k v j)

pub get-remove : (d : Dict) (k j : String) → get (remove d k) j ≡ (if k == j then none else get d j)
unfolding get remove
get-remove [] k j = ground arith
get-remove ((i, w) ∷ d) k j = ground (arith, eq_iff k j, eq_iff i k, eq_iff i j, get-remove d k j)
