-- ===== src/Chaos/Member.antt =====
-- Membership in what the list functions of chaos-test/src/checker.rs make.
use raft_vibe.Prelude.{inl, inr, Bool, Bool-cases, List, [], ◌∷◌, Has}
use raft_vibe.Chaos.History.{insert_sorted, sort_by}

module _ {A : Type 0} where
  insert_sorted-Has :
      (less : A → A → Bool) (x : A) (l : List A) (a : A)
      → Has a (insert_sorted less x l)
      → Has a (x ∷ l)
  unfolding insert_sorted
  insert_sorted-Has less x [] a m = m
  insert_sorted-Has less x (y ∷ ys) a m = elim (Bool-cases (less y x)) [
    | inr stops ↦ rw stops at m
    | inl later ↦
        let m' : Has a (y ∷ insert_sorted less x ys) = rw later at m in
        elim m' [
          | inl e ↦ inr (inl e)
          | inr rest ↦ elim (insert_sorted-Has less x ys a rest) [
            | inl e ↦ inl e
            | inr l ↦ inr (inr l)
          ]
        ]
  ]

  Has-insert_sorted :
      (less : A → A → Bool) (x : A) (l : List A) (a : A)
      → Has a (x ∷ l)
      → Has a (insert_sorted less x l)
  unfolding insert_sorted
  Has-insert_sorted less x [] a m = m
  Has-insert_sorted less x (y ∷ ys) a m = elim (Bool-cases (less y x)) [
    | inr stops ↦ rw stops m
    | inl later ↦ rw later (elim m [
      | inl e ↦ inr (Has-insert_sorted less x ys a (inl e))
      | inr rest ↦ elim rest [ inl e ↦ inl e | inr l ↦ inr (Has-insert_sorted less x ys a (inr l)) ]
    ])
  ]

  pub sort_by-Has : (less : A → A → Bool) (l : List A) (a : A) → Has a (sort_by less l) → Has a l
  unfolding sort_by
  sort_by-Has less [] a m = m
  sort_by-Has less (x ∷ xs) a m = elim (insert_sorted-Has less x (sort_by less xs) a m) [
    | inl e ↦ inl e
    | inr rest ↦ inr (sort_by-Has less xs a rest)
  ]

  pub Has-sort_by : (less : A → A → Bool) (l : List A) (a : A) → Has a l → Has a (sort_by less l)
  unfolding sort_by
  Has-sort_by less [] a m = m
  Has-sort_by less (x ∷ xs) a (inl e) = Has-insert_sorted less x (sort_by less xs) a (inl e)
  Has-sort_by less (x ∷ xs) a (inr m) =
      Has-insert_sorted less x (sort_by less xs) a (inr (Has-sort_by less xs a m))
