-- ===== src/Chaos/Linear.antt =====
-- Linearizability of a register, stated apart from the search of chaos-test/src/checker.rs.
use text.Mathlib.TextEquality.{eq_iff}
use raft_vibe.Prelude.{
  ℕ, ◌≤◌, ◌≡◌, ◌⊎◌, ◌↔◌, refl, String, true, Option, none, some, List, [], ◌∷◌, All, arith, Has,
}
use raft_vibe.Chaos.History.{OpKind, read, write, OpResult, read_ok, write_ok, error, Operation}
use raft_vibe.Chaos.Checker.{RegisterModel, same_value, outcome, try_apply}

-- What an operation that took place says of the register before and after it: a write leaves its
-- value, and a read has returned the value that is there.
pub data Effect (op : Operation) (before : RegisterModel) : RegisterModel → Type 0 where
  writes :
      {value : String}
      → op.kind ≡ write value
      → op.result ≡ write_ok
      → Effect op before (some value)
  reads : op.kind ≡ read → op.result ≡ read_ok before → Effect op before before

pub same_value_iff : (a b : Option String) → (same_value a b ≡ true) ↔ (a ≡ b)
same_value_iff none none = (λ h. refl, λ h. refl)
same_value_iff none (some b) = (λ h. ground (arith, h), λ h. ground (arith, h))
same_value_iff (some a) none = (λ h. ground (arith, h), λ h. ground (arith, h))
same_value_iff (some a) (some b) =
    (λ h. ground (arith, eq_iff a b, h), λ h. ground (arith, eq_iff a b, h))

pub Effect-try_apply :
    (op : Operation) (m : RegisterModel) {m' : RegisterModel}
    → Effect op m m'
    → try_apply op m ≡ some m'
unfolding try_apply
Effect-try_apply op m (writes k r) = rw (k, r) refl
Effect-try_apply op m (reads k r) =
    let same = (same_value_iff m m).1 refl in rw (k, r) (rw same refl)

outcome-Effect :
    (op : Operation) (kind : OpKind) (result : OpResult) (m m' : RegisterModel)
    → op.kind ≡ kind
    → op.result ≡ result
    → outcome kind result m ≡ some m'
    → Effect op m m'
outcome-Effect op (write value) write_ok m m' k r h =
    let e : m' ≡ some value = ground (arith, h) in rw e (writes k r)
outcome-Effect op read (read_ok value) m m' k r h =
    let e : m ≡ value = (same_value_iff m value).0 (ground (arith, h)) in
    let e' : m' ≡ m = ground (arith, h) in rw e' (reads k (rw e r))
outcome-Effect op (write value) (read_ok _) m m' k r h = absurd (ground (arith, h))
outcome-Effect op (write value) (error _) m m' k r h = absurd (ground (arith, h))
outcome-Effect op read write_ok m m' k r h = absurd (ground (arith, h))
outcome-Effect op read (error _) m m' k r h = absurd (ground (arith, h))

pub try_apply-Effect :
    (op : Operation) (m m' : RegisterModel) → try_apply op m ≡ some m' → Effect op m m'
unfolding try_apply
try_apply-Effect op m m' h = outcome-Effect op op.kind op.result m m' refl refl h

abbrev pub Once : List ℕ → Type 0
Once [] = Unit
Once (i ∷ l) = ¬ (Has i l) × Once l

module _ (ops : ℕ → Operation) where
  -- The operations take place one after the other.
  abbrev pub Legal : RegisterModel → List ℕ → Type 0
  Legal model [] = Unit
  Legal model (i ∷ order) =
      (model' : RegisterModel) × Effect (ops i) model model' × Legal model' order

  -- No operation stands behind one that started after it was complete.
  abbrev pub RealTime : List ℕ → Type 0
  RealTime [] = Unit
  RealTime (i ∷ order) = All (λ j. (ops i).invoke_ts ≤ (ops j).complete_ts) order × RealTime order

  -- No operation is complete before the time.
  abbrev pub NotBefore : ℕ → List ℕ → Type 0
  NotBefore time order = All (λ i. time ≤ (ops i).complete_ts) order

  abbrev pub WellTimed : List ℕ → Type 0
  WellTimed l = All (λ i. (ops i).invoke_ts ≤ (ops i).complete_ts) l

  -- `order` places each required operation once, and no other but optional ones, each at most once,
  -- from a state of the register and a time on.
  pub record IsLinearization (required optional : List ℕ) (model : RegisterModel) (time : ℕ)
      (order : List ℕ) : Type 0 where
    pub legal : Legal model order
    pub real_time : RealTime order
    pub not_before : NotBefore time order
    pub once : Once order
    pub within : All (λ i. Has i required ⊎ Has i optional) order
    pub complete : All (λ i. Has i order) required
