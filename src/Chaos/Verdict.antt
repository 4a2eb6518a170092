-- ===== src/Chaos/Verdict.antt =====
-- `check_single_key` and `check` of chaos-test/src/checker.rs against linearizability.
use raft_vibe.Prelude.{
  ℕ, ◌+◌, ◌≤◌, ◌≡◌, ◌↔◌, inl, inr, refl, String, true, Option-cases, none, some, List, [], ◌∷◌,
  ◌++◌, All, length, map, arith, Has, All-Has, Has-All, Has-append, Has-append_left,
  Has-append_right,
}
use raft_vibe.Chaos.History.{write, Operation}
use raft_vibe.Chaos.Checker.{
  search, search_all, range_from, is_written, find_never_written, find_stale, max_ts, extended,
  all_ops, check_single_key,
}
use raft_vibe.Chaos.Linear.{IsLinearization}
use raft_vibe.Chaos.Search.{search_sound}
use raft_vibe.Chaos.Complete.{search_complete}
use raft_vibe.Chaos.Fast.{
  read_value-read, Legal-source, no_stale_read, is_written-none, is_written-Has,
  find_never_written-none, find_stale-none,
}
use raft_vibe.Chaos.Indices.{
  length-range_from, range_from-Apart, index_of-required, get_or-required,
}
use raft_vibe.Chaos.Late.{
  settled, Slot, confirmed_at, undecided_at, place_of, settled-IsLinearization, max_ts-le,
}

-- `order` is a linearization of the confirmed operations of a key and some of its indeterminate
-- writes, from the initial state, each write complete at the time.
abbrev pub Linearizes : ℕ → List Operation → List Operation → List ℕ → Type 0
Linearizes time ops undecided order =
    IsLinearization (settled time ops undecided) (range_from 0 (length ops))
      (range_from (length ops) (length undecided)) none 0 order

-- Every operation started before it was complete.
abbrev pub InOrder : List Operation → Type 0
InOrder ops = All (λ op. op.invoke_ts ≤ op.complete_ts) ops

module _ (ops undecided : List Operation) (time : ℕ) (order : List ℕ)
    (k : Linearizes time ops undecided order) where
  -- Where a confirmed operation stands in the order.
  placed :
      (op : Operation) → Has op ops → (i : ℕ) × Has i order × (settled time ops undecided i ≡ op)
  placed op h =
      let (i, l, e) = index_of-required ops (map (extended time) undecided) op h in
      (i, All-Has (λ i. Has i order) (range_from 0 (length ops)) i k.complete l, e)

  place_written :
      (i : ℕ) (x : String)
      → (settled time ops undecided i).kind ≡ write x
      → Slot ops undecided i
      → is_written (ops ++ undecided) (some x) ≡ true
  unfolding extended
  place_written i x w (confirmed_at op h at_time) =
      is_written-Has (ops ++ undecided) op x (Has-append_left ops undecided op h)
        (rw (at_time time) at w)
  place_written i x w (undecided_at op h at_time) =
      is_written-Has (ops ++ undecided) op x (Has-append_right ops undecided op h)
        (rw (at_time time) at w)

  passes_never_written : find_never_written (ops ++ undecided) ops ≡ none
  passes_never_written = find_never_written-none (ops ++ undecided) ops (λ op v h e.
      let (kind, result) = read_value-read op v e in
      let (i, l, same) = placed op h in
      elim (Legal-source (settled time ops undecided) order none i v k.legal l (rw same kind)
        (rw same result)) [
          | inl initial ↦ rw initial (is_written-none (ops ++ undecided))
          | inr (j, x, m, w, from) ↦
              rw from
                (place_written j x w (place_of ops undecided j (All-Has _ order j k.within m)))
        ])

  passes_stale : find_stale ops ops ≡ none
  passes_stale = find_stale-none ops ops (λ op w x h g e kind_w.
      let (kind, result) = read_value-read op none e in
      let (i, l, same) = placed op h in
      let (j, m, same') = placed w g in
      let late =
        no_stale_read (settled time ops undecided) order none x i j k.legal k.real_time l m
          (rw same kind) (rw same result) (rw same' kind_w) in
      rw (same, same') at late)

-- What `search_all` finds is a linearization, and it finds one where there is one.
search_all_sound :
    (ops undecided : List Operation) (l : List ℕ)
    → search_all ops undecided ≡ some l
    → (order : List ℕ) × Linearizes (max_ts (ops ++ undecided)) ops undecided order
unfolding search_all all_ops
search_all_sound ops undecided l h =
    let (order, _, k) =
      search_sound (settled (max_ts (ops ++ undecided)) ops undecided)
        (length ops + length undecided) (range_from 0 (length ops))
        (range_from (length ops) (length undecided)) none 0 [] l
        (range_from-Apart (length ops) (length undecided)) h in
    (order, k)

search_all_complete :
    (ops undecided : List Operation) (order : List ℕ)
    → InOrder ops
    → Linearizes (max_ts (ops ++ undecided)) ops undecided order
    → (l : List ℕ) × (search_all ops undecided ≡ some l)
unfolding search_all all_ops
search_all_complete ops undecided order timed k =
    let f : ℕ → Operation = settled (max_ts (ops ++ undecided)) ops undecided in
    search_complete f (length ops + length undecided) (range_from 0 (length ops))
      (range_from (length ops) (length undecided)) none 0 [] order
      (rw (length-range_from 0 (length ops), length-range_from (length ops) (length undecided))
        (omega arith))
      (range_from-Apart (length ops) (length undecided))
      (Has-All _ (range_from 0 (length ops)) (λ i h.
        All-Has (λ op. op.invoke_ts ≤ op.complete_ts) ops (f i) timed
          (get_or-required ops (map (extended (max_ts (ops ++ undecided))) undecided) i h)))
      k

nothing_confirmed :
    (undecided : List Operation)
    → ((check_single_key [] undecided).is_linearizable ≡ true) × (search_all [] undecided ≡ some [])
unfolding check_single_key find_never_written find_stale search_all search
nothing_confirmed [] = (refl, refl)
nothing_confirmed (w ∷ undecided) = (refl, refl)

-- The checks of a key pass exactly if each of them does.
verdict_of_search :
    (ops undecided : List Operation) (l : List ℕ)
    → find_never_written (ops ++ undecided) ops ≡ none
    → find_stale ops ops ≡ none
    → search_all ops undecided ≡ some l
    → (check_single_key ops undecided).is_linearizable ≡ true
unfolding check_single_key
verdict_of_search [] undecided l never stale e = (nothing_confirmed undecided).0
verdict_of_search (op ∷ ops) undecided l never stale e = rw (check_single_key, never, stale, e) refl

search_of_verdict :
    (ops undecided : List Operation)
    → (check_single_key ops undecided).is_linearizable ≡ true
    → (l : List ℕ) × (search_all ops undecided ≡ some l)
unfolding check_single_key
search_of_verdict [] undecided h = ([], (nothing_confirmed undecided).1)
search_of_verdict (op ∷ ops) undecided h = elim (Option-cases (search_all (op ∷ ops) undecided)) [
  | inr found ↦ found
  | inl fails ↦
      absurd (elim (Option-cases (find_never_written ((op ∷ ops) ++ undecided) (op ∷ ops))) [
        | inr (reason, e) ↦ ground (arith, rw (check_single_key, e) at h)
        | inl never ↦ elim (Option-cases (find_stale (op ∷ ops) (op ∷ ops))) [
          | inr (reason, e) ↦ ground (arith, rw (check_single_key, never, e) at h)
          | inl stale ↦ ground (arith, rw (check_single_key, never, stale, fails) at h)
        ]
      ])
]

-- Where every operation of a key started before it was complete, and whatever time from the end of
-- the history on is taken as the completion of the indeterminate writes, the checker accepts the key
-- if and only if its confirmed operations and some of its indeterminate writes have a linearization
-- from the initial state: neither the fast checks nor the pruning of the search reject one, and what
-- the search finds is one.
pub check_single_key_iff :
    (ops undecided : List Operation) (time : ℕ)
    → InOrder ops
    → InOrder undecided
    → max_ts (ops ++ undecided) ≤ time
    → ((check_single_key ops undecided).is_linearizable ≡ true)
      ↔ ((order : List ℕ) × Linearizes time ops undecided order)
check_single_key_iff ops undecided time timed timed' end =
    let late : ℕ = max_ts (ops ++ undecided) in
    let early : All (λ op. op.invoke_ts ≤ late) (ops ++ undecided) =
      Has-All _ (ops ++ undecided) (λ op h.
        let in_order : op.invoke_ts ≤ op.complete_ts = elim (Has-append ops undecided op h) [
          | inl l ↦ All-Has (λ op. op.invoke_ts ≤ op.complete_ts) ops op timed l
          | inr r ↦ All-Has (λ op. op.invoke_ts ≤ op.complete_ts) undecided op timed' r
        ] in
        omega (arith, max_ts-le (ops ++ undecided) op h, in_order)) in
    (
      λ h.
          let (l, e) = search_of_verdict ops undecided h in
          let (order, k) = search_all_sound ops undecided l e in
          (
            order,
            settled-IsLinearization ops undecided late time order
                (Has-All _ (ops ++ undecided) (λ op h.
                  omega (
                    arith,
                    end,
                    All-Has (λ op. op.invoke_ts ≤ late) (ops ++ undecided) op early h,
                  )))
                k,
          ),
      λ (order, k).
          let k' = settled-IsLinearization ops undecided time late order early k in
          let (l, e) = search_all_complete ops undecided order timed k' in
          verdict_of_search ops undecided l (passes_never_written ops undecided late order k')
            (passes_stale ops undecided late order k') e,
    )
