-- ===== src/Chaos/Fast.antt =====
-- The two fast checks of `check_single_key` in chaos-test/src/checker.rs.
use raft_vibe.Prelude.{
  ℕ, ◌≤◌, ◌≡◌, ◌⊎◌, inl, inr, refl, sym, ap, ◌∙◌, String, Bool-cases, true, false, Option,
  Option-cases, none, some, List, [], ◌∷◌, ltb, arith, Has, All-Has,
}
use raft_vibe.Chaos.History.{OpKind, read, write, OpResult, read_ok, write_ok, error, Operation}
use raft_vibe.Chaos.Checker.{
  RegisterModel, same_value, is_written, returned, read_value, find_never_written,
  find_complete_write, find_stale,
}
use raft_vibe.Chaos.Linear.{Effect, writes, reads, same_value_iff, Legal, RealTime}

returned-read :
    (kind : OpKind) (result : OpResult) (v : Option String)
    → returned kind result ≡ some v
    → (kind ≡ read) × (result ≡ read_ok v)
returned-read read (read_ok x) v h = let e : x ≡ v = ground (arith, h) in (refl, ap read_ok e)
returned-read read write_ok v h = absurd (ground (arith, h))
returned-read read (error _) v h = absurd (ground (arith, h))
returned-read (write _) result v h = absurd (ground (arith, h))

-- An operation with a returned value is a read of it.
pub read_value-read :
    (op : Operation) (v : Option String)
    → read_value op ≡ some v
    → (op.kind ≡ read) × (op.result ≡ read_ok v)
unfolding read_value
read_value-read op v h = returned-read op.kind op.result v h

-- Where the value of the register after an operation is from.
Effect-source :
    (op : Operation) (m : RegisterModel) {m' : RegisterModel}
    → Effect op m m'
    → ((op.kind ≡ read) × (m' ≡ m)) ⊎ ((x : String) × (op.kind ≡ write x) × (m' ≡ some x))
Effect-source op m (writes {value = x} k r) = inr (x, k, refl)
Effect-source op m (reads k r) = inl (k, refl)

-- A read returns the value that it finds.
Effect-read :
    (op : Operation) (m v : RegisterModel) {m' : RegisterModel}
    → Effect op m m'
    → op.kind ≡ read
    → op.result ≡ read_ok v
    → v ≡ m
Effect-read op m v (writes k r) k' r' = absurd (ground (arith, sym k ∙ k'))
Effect-read op m v (reads k r) k' r' = ground (arith, sym r' ∙ r)

module _ (ops : ℕ → Operation) where
  -- What a read of an order returns was there before it, or is from a write of the order.
  pub Legal-source :
      (order : List ℕ) (m : RegisterModel) (i : ℕ) (v : Option String)
      → Legal ops m order
      → Has i order
      → (ops i).kind ≡ read
      → (ops i).result ≡ read_ok v
      → (v ≡ m) ⊎ ((k : ℕ) × (x : String) × Has k order × ((ops k).kind ≡ write x) × (v ≡ some x))
  Legal-source [] m i v legal h kind result = absurd h
  Legal-source (k ∷ order) m i v (m', eff, legal) (inl e) kind result =
      inl (Effect-read (ops k) m v eff (rw (← e) kind) (rw (← e) result))
  Legal-source (k ∷ order) m i v (m', eff, legal) (inr h) kind result =
      elim (Legal-source order m' i v legal h kind result) [
        | inr (j, x, l, w, e) ↦ inr (j, x, inr l, w, e)
        | inl e ↦ elim (Effect-source (ops k) m eff) [
          | inl (_, same) ↦ inl (e ∙ same)
          | inr (x, w, wrote) ↦ inr (k, x, inl refl, w, e ∙ wrote)
        ]
      ]

  -- Once the register is written, no read finds the initial state.
  stays_written :
      (order : List ℕ) (m : RegisterModel) (x : String) (i : ℕ)
      → m ≡ some x
      → Legal ops m order
      → Has i order
      → (ops i).kind ≡ read
      → ¬ ((ops i).result ≡ read_ok none)
  stays_written [] m x i e legal h kind result = absurd h
  stays_written (k ∷ order) m x i e (m', eff, legal) (inl s) kind result =
      let found : none ≡ m = Effect-read (ops k) m none eff (rw (← s) kind) (rw (← s) result) in
      ground (arith, found ∙ e)
  stays_written (k ∷ order) m x i e (m', eff, legal) (inr h) kind result =
      elim (Effect-source (ops k) m eff) [
        | inl (_, same) ↦ stays_written order m' x i (same ∙ e) legal h kind result
        | inr (y, w, wrote) ↦ stays_written order m' y i wrote legal h kind result
      ]

  -- A read of an order that started after a write of it was complete does not find the initial
  -- state.
  pub no_stale_read :
      (order : List ℕ) (m : RegisterModel) (x : String) (i j : ℕ)
      → Legal ops m order
      → RealTime ops order
      → Has i order
      → Has j order
      → (ops i).kind ≡ read
      → (ops i).result ≡ read_ok none
      → (ops j).kind ≡ write x
      → (ops i).invoke_ts ≤ (ops j).complete_ts
  no_stale_read [] m x i j legal timed hi hj kind result w = absurd hi
  no_stale_read (k ∷ order) m x i j (m', eff, legal) (first, timed) (inl e) (inl f) kind result w =
      absurd (ground (arith, sym kind ∙ ap (λ n. (ops n).kind) (e ∙ sym f) ∙ w))
  no_stale_read (k ∷ order) m x i j (m', eff, legal) (first, timed) (inl e) (inr hj) kind result w =
      rw e (All-Has (λ n. (ops k).invoke_ts ≤ (ops n).complete_ts) order j first hj)
  no_stale_read (k ∷ order) m x i j (m', eff, legal) (first, timed) (inr hi) (inl f) kind result w =
      elim (Effect-source (ops k) m eff) [
        | inl (is_read, _) ↦
            absurd (ground (arith, sym is_read ∙ ap (λ n. (ops n).kind) (sym f) ∙ w))
        | inr (y, _, wrote) ↦ absurd (stays_written order m' y i wrote legal hi kind result)
      ]
  no_stale_read (k ∷ order) m x i j (m', eff, legal) (first, timed) (inr hi) (inr hj) kind result
        w =
      no_stale_read order m' x i j legal timed hi hj kind result w

OpKind-cases : (k : OpKind) → (k ≡ read) ⊎ ((v : String) × (k ≡ write v))
OpKind-cases read = inl refl
OpKind-cases (write v) = inr (v, refl)

pub is_written-none : (ws : List Operation) → is_written ws none ≡ true
unfolding is_written
is_written-none [] = refl
is_written-none (w ∷ ws) = elim (OpKind-cases w.kind) [
  | inl k ↦ rw (is_written, k) (is_written-none ws)
  | inr (v, k) ↦ rw (is_written, k) (is_written-none ws)
]

pub is_written-Has :
    (ws : List Operation) (w : Operation) (x : String)
    → Has w ws
    → w.kind ≡ write x
    → is_written ws (some x) ≡ true
unfolding is_written
is_written-Has [] w x h k = absurd h
is_written-Has (o ∷ ws) w x (inl e) k =
    let same = (same_value_iff (some x) (some x)).1 refl in
    rw (is_written, ap (λ o. o.kind) (sym e) ∙ k) (rw same refl)
is_written-Has (o ∷ ws) w x (inr h) k = elim (OpKind-cases o.kind) [
  | inl r ↦ rw (is_written, r) (is_written-Has ws w x h k)
  | inr (v, r) ↦ elim (Bool-cases (same_value (some v) (some x))) [
    | inl t ↦ rw (is_written, r) (rw t refl)
    | inr f ↦ rw (is_written, r) (rw f (is_written-Has ws w x h k))
  ]
]

pub find_never_written-none :
    (ws l : List Operation)
    → ((op : Operation) (v : Option String)
        → Has op l
        → read_value op ≡ some v
        → is_written ws v ≡ true)
    → find_never_written ws l ≡ none
unfolding find_never_written
find_never_written-none ws [] f = refl
find_never_written-none ws (op ∷ l) f =
    let rest = find_never_written-none ws l (λ o v h. f o v (inr h)) in
    elim (Option-cases (read_value op)) [
      | inl e ↦ rw (find_never_written, e) rest
      | inr (v, e) ↦ let t = f op v (inl refl) e in rw (find_never_written, e) (rw t rest)
    ]

find_complete_write-none :
    (l : List Operation) (ts : ℕ)
    → ((w : Operation) (x : String) → Has w l → w.kind ≡ write x → ts ≤ w.complete_ts)
    → find_complete_write l ts ≡ none
unfolding find_complete_write
find_complete_write-none [] ts f = refl
find_complete_write-none (w ∷ l) ts f =
    let rest = find_complete_write-none l ts (λ o x h. f o x (inr h)) in
    elim (OpKind-cases w.kind) [
      | inl k ↦ rw (find_complete_write, k) rest
      | inr (x, k) ↦
          let late = f w x (inl refl) k in
          let t : ltb w.complete_ts ts ≡ false = ground (arith, late) in
          rw (find_complete_write, k) (rw t rest)
    ]

pub find_stale-none :
    (all l : List Operation)
    → ((op w : Operation) (x : String)
        → Has op l
        → Has w all
        → read_value op ≡ some none
        → w.kind ≡ write x
        → op.invoke_ts ≤ w.complete_ts)
    → find_stale all l ≡ none
unfolding find_stale
find_stale-none all [] f = refl
find_stale-none all (op ∷ l) f =
    let rest = find_stale-none all l (λ o w x h. f o w x (inr h)) in
    elim (Option-cases (read_value op)) [
      | inl e ↦ rw (find_stale, e) rest
      | inr (some s, e) ↦ rw (find_stale, e) rest
      | inr (none, e) ↦
          let none_found =
            find_complete_write-none all op.invoke_ts (λ w x h k. f op w x (inl refl) h e k) in
          rw (find_stale, e) (rw none_found rest)
    ]
