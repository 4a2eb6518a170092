-- ===== src/Chaos/Split.antt =====
-- The operations on one key of a history, as `check` of chaos-test/src/checker.rs takes them apart.
use text.Mathlib.Text.{◌==◌}
use text.Mathlib.TextEquality.{eq_iff}
use raft_vibe.Prelude.{
  ◌≡◌, ◌≢◌, ◌⊎◌, ◌&&◌, refl, sym, ◌∙◌, inl, inr, Bool, true, false, not, Bool-cases, String, List,
  [], ◌∷◌, if◌then◌else◌, retain, arith,
}
use raft_vibe.Chaos.History.{
  Operation, OpKind, OpResult, read, write, read_ok, write_ok, error, is_error, is_write,
}
use raft_vibe.Chaos.Checker.{confirmed, indeterminate}

-- `Splits key l ops undecided`: of the history `l`, in its order, `ops` are the operations on the key
-- that the client was told the outcome of, and `undecided` the writes on the key that ended in an
-- error. A read that ended in an error, and what is on another key, is in neither.
pub data Splits (key : String) : List Operation → List Operation → List Operation → Type 0 where
  ended : Splits key [] [] []
  other_key :
      (op : Operation) {l ops undecided : List Operation}
      → op.key ≢ key
      → Splits key l ops undecided
      → Splits key (op ∷ l) ops undecided
  told :
      (op : Operation) {l ops undecided : List Operation}
      → op.key ≡ key
      → ((e : String) → op.result ≢ error e)
      → Splits key l ops undecided
      → Splits key (op ∷ l) (op ∷ ops) undecided
  write_failed :
      (op : Operation) (value e : String) {l ops undecided : List Operation}
      → op.key ≡ key
      → op.kind ≡ write value
      → op.result ≡ error e
      → Splits key l ops undecided
      → Splits key (op ∷ l) ops (op ∷ undecided)
  read_failed :
      (op : Operation) (e : String) {l ops undecided : List Operation}
      → op.key ≡ key
      → op.kind ≡ read
      → op.result ≡ error e
      → Splits key l ops undecided
      → Splits key (op ∷ l) ops undecided

module _ {A : Type 0} (p : A → Bool) where
  retain-cons :
      (x : A) (l : List A) (b : Bool)
      → p x ≡ b
      → retain p (x ∷ l) ≡ (if b then x ∷ retain p l else retain p l)
  retain-cons x l b e = rw e refl

abbrev for_key : String → List Operation → List Operation
for_key key l = retain (λ op. op.key == key) l

other-key : (op : Operation) (key : String) → op.key ≢ key → (op.key == key) ≡ false
other-key op key d = elim (Bool-cases (op.key == key)) [
  | inl same ↦ absurd (d ((eq_iff op.key key).0 same))
  | inr differs ↦ differs
]

result-cases : (r : OpResult) → ((e : String) × (r ≡ error e)) ⊎ ((e : String) → r ≢ error e)
result-cases (read_ok v) = inr (λ e h. absurd (ground (arith, h)))
result-cases write_ok = inr (λ e h. absurd (ground (arith, h)))
result-cases (error e) = inl (e, refl)

kind-cases : (k : OpKind) → (k ≡ read) ⊎ ((value : String) × (k ≡ write value))
kind-cases read = inl refl
kind-cases (write value) = inr (value, refl)

is_error-told : (r : OpResult) → ((e : String) → r ≢ error e) → is_error r ≡ false
is_error-told (read_ok v) h = refl
is_error-told write_ok h = refl
is_error-told (error e) h = absurd (h e refl)

-- What the two filters do with one operation more on the key.
filtered :
    (key : String) (op : Operation) (l : List Operation) (x y : Bool)
    → op.key ≡ key
    → not (is_error op.result) ≡ x
    → (is_write op && is_error op.result) ≡ y
    → (confirmed (for_key key (op ∷ l))
        ≡ (if x then op ∷ confirmed (for_key key l) else confirmed (for_key key l)))
      × (indeterminate (for_key key (op ∷ l))
          ≡ (if y then op ∷ indeterminate (for_key key l) else indeterminate (for_key key l)))
unfolding confirmed indeterminate
filtered key op l x y k c u =
    let own : for_key key (op ∷ l) ≡ op ∷ for_key key l =
      retain-cons (λ o. o.key == key) op l true ((eq_iff op.key key).1 k) in
    (
      rw own (retain-cons (λ o. not (is_error o.result)) op (for_key key l) x c),
      rw own (retain-cons (λ o. is_write o && is_error o.result) op (for_key key l) y u),
    )

skipped :
    (key : String) (op : Operation) (l : List Operation)
    → op.key ≢ key
    → for_key key (op ∷ l) ≡ for_key key l
skipped key op l d = retain-cons (λ o. o.key == key) op l false (other-key op key d)

-- The same with each kind of operation on the key.
told-filtered :
    (key : String) (op : Operation) (l : List Operation)
    → op.key ≡ key
    → ((e : String) → op.result ≢ error e)
    → (confirmed (for_key key (op ∷ l)) ≡ op ∷ confirmed (for_key key l))
      × (indeterminate (for_key key (op ∷ l)) ≡ indeterminate (for_key key l))
told-filtered key op l k t =
    let fine = is_error-told op.result t in
    filtered key op l true false k (ground (arith, fine)) (ground (arith, fine))

write_failed-filtered :
    (key : String) (op : Operation) (l : List Operation) (v e : String)
    → op.key ≡ key
    → op.kind ≡ write v
    → op.result ≡ error e
    → (confirmed (for_key key (op ∷ l)) ≡ confirmed (for_key key l))
      × (indeterminate (for_key key (op ∷ l)) ≡ op ∷ indeterminate (for_key key l))
unfolding is_write
write_failed-filtered key op l v e k w r =
    filtered key op l false true k (rw r refl) (rw (w, r) refl)

read_failed-filtered :
    (key : String) (op : Operation) (l : List Operation) (e : String)
    → op.key ≡ key
    → op.kind ≡ read
    → op.result ≡ error e
    → (confirmed (for_key key (op ∷ l)) ≡ confirmed (for_key key l))
      × (indeterminate (for_key key (op ∷ l)) ≡ indeterminate (for_key key l))
unfolding is_write
read_failed-filtered key op l e k w r = filtered key op l false false k (rw r refl) (rw w refl)

-- The code's two lists are such a split, and there is no other.
pub for_key-Splits :
    (key : String) (l : List Operation)
    → Splits key l (confirmed (for_key key l)) (indeterminate (for_key key l))
unfolding confirmed indeterminate
for_key-Splits key [] = ended
for_key-Splits key (op ∷ l) =
    let rest = for_key-Splits key l in
    elim (Bool-cases (op.key == key)) [
      | inr differs ↦
          let d : op.key ≢ key = λ e. absurd (ground (arith, differs, (eq_iff op.key key).1 e)) in
          rw (skipped key op l d) (other_key op d rest)
      | inl same ↦
          let k = (eq_iff op.key key).0 same in
          elim (result-cases op.result) [
            | inr t ↦ let (f, g) = told-filtered key op l k t in rw (f, g) (told op k t rest)
            | inl (e, r) ↦ elim (kind-cases op.kind) [
              | inr (v, w) ↦
                  let (f, g) = write_failed-filtered key op l v e k w r in
                  rw (f, g) (write_failed op v e k w r rest)
              | inl w ↦
                  let (f, g) = read_failed-filtered key op l e k w r in
                  rw (f, g) (read_failed op e k w r rest)
            ]
          ]
    ]

pub Splits-for_key :
    (key : String) {l ops undecided : List Operation}
    → Splits key l ops undecided
    → (ops ≡ confirmed (for_key key l)) × (undecided ≡ indeterminate (for_key key l))
unfolding confirmed indeterminate
Splits-for_key key ended = (refl, refl)
Splits-for_key key (other_key op {l = l} d s) =
    let (a, b) = Splits-for_key key s in rw (skipped key op l d) (a, b)
Splits-for_key key (told op {l = l} k t s) =
    let (a, b) = Splits-for_key key s in
    let (f, g) = told-filtered key op l k t in (rw (f, a) refl, b ∙ sym g)
Splits-for_key key (write_failed op v e {l = l} k w r s) =
    let (a, b) = Splits-for_key key s in
    let (f, g) = write_failed-filtered key op l v e k w r in (a ∙ sym f, rw (g, b) refl)
Splits-for_key key (read_failed op e {l = l} k w r s) =
    let (a, b) = Splits-for_key key s in
    let (f, g) = read_failed-filtered key op l e k w r in (a ∙ sym f, b ∙ sym g)
