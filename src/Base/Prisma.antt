-- ===== src/Base/Prisma.antt =====
-- What the program relies on of its database client, which is not part of the repository: one
-- interface for the queries of a table, and one for `$transaction`. The state of a table is
-- abstract; the laws say, through the listing `rows`, what Prisma documents of each query. A query
-- may fail at any time, and then it has changed no row.
pub mod Memory
pub mod Commits
pub mod Ordering
use Prim.Native.Nat.{ℕ, ◌≤◌, ◌<◌}
use mathlib.Core.Path.{◌≡◌}
use mathlib.Core.Logic.{◌⊎◌, ◌↔◌}
use mathlib.Core.Bool.{Bool, true, false, not}
use mathlib.Core.Option.{Option, none, some}
use mathlib.Core.List.{List, map, Memᴰ, Perm}
use realworld_tutorial.Base.Tests.{if◌then◌else◌}
use realworld_tutorial.Base.Lists.{All, keep, length, append_one}
use realworld_tutorial.Base.Calls.{Exception, http, prisma, error, Outcome, ok, err, M}

-- Not one of the exceptions that the program throws itself.
abbrev pub IsDatabase : Exception → Type 0
IsDatabase (http code message) = ⊥
IsDatabase (prisma code target) = Unit
IsDatabase (error message) = Unit

module _ {Row : Type 0} where
  -- `findFirst` and `findUnique`: some row that passes, or null if none does.
  abbrev pub Finds : (Row → Bool) → List Row → Outcome (Option Row) → Type 0
  Finds p rows (ok none) = All (λ r. p r ≡ false) rows
  Finds p rows (ok (some r)) = Memᴰ r rows × (p r ≡ true)
  Finds p rows (err e) = IsDatabase e

  -- `findMany`: the rows that pass, each as often as the table has it, in some order.
  abbrev pub FindsMany : (Row → Bool) → List Row → Outcome (List Row) → Type 0
  FindsMany p rows (ok found) =
      Perm found (keep p rows) × ((r : Row) → Memᴰ r found ↔ (Memᴰ r rows × (p r ≡ true)))
  FindsMany p rows (err e) = IsDatabase e

  -- A row as `data` gives it, for any rows that pass `where`.
  abbrev pub patch : (Row → Bool) → (Row → Row) → Row → Row
  patch p f r = if p r then f r else r

  -- `create`: the new row, with the next id, stands beside the old ones and breaks no unique key.
  abbrev pub Creates :
      (Row → Row → Bool) → (ℕ → Row) → ℕ → List Row → Outcome Row → ℕ → List Row → Type 0
  Creates clash make next before (ok r) next' after =
      (i : ℕ) × (next ≤ i)
      × (i < next')
      × (r ≡ make i)
      × (after ≡ append_one before r)
      × All (λ q. clash q r ≡ false) before
  Creates clash make next before (err e) next' after =
      IsDatabase e × (next ≤ next') × (after ≡ before)

  -- `updateMany`
  abbrev pub Updates : (Row → Bool) → (Row → Row) → List Row → Outcome ℕ → List Row → Type 0
  Updates p f before (ok n) after = (n ≡ length (keep p before)) × (after ≡ map (patch p f) before)
  Updates p f before (err e) after = IsDatabase e × (after ≡ before)

  -- `update`: the row that `where` names, or an error if there is none.
  abbrev pub UpdatesOne : (Row → Bool) → (Row → Row) → List Row → Outcome Row → List Row → Type 0
  UpdatesOne p f before (ok r) after =
      (q : Row) × Memᴰ q before × (p q ≡ true) × (r ≡ f q) × (after ≡ map (patch p f) before)
  UpdatesOne p f before (err e) after = IsDatabase e × (after ≡ before)

  -- `deleteMany`
  abbrev pub Deletes : (Row → Bool) → List Row → Outcome ℕ → List Row → Type 0
  Deletes p before (ok n) after =
      (n ≡ length (keep p before)) × (after ≡ keep (λ r. not (p r)) before)
  Deletes p before (err e) after = IsDatabase e × (after ≡ before)

  -- `delete`: the row that `where` names, or an error if there is none.
  abbrev pub DeletesOne : (Row → Bool) → List Row → Outcome Row → List Row → Type 0
  DeletesOne p before (ok r) after =
      Memᴰ r before × (p r ≡ true) × (after ≡ keep (λ r. not (p r)) before)
  DeletesOne p before (err e) after = IsDatabase e × (after ≡ before)

-- The queries of one table. `clash` is the table's unique keys, beside its id.
pub record Delegate (Row : Type 0) (clash : Row → Row → Bool) : Type 1 where
  pub Store : Type 0
  pub rows : Store → List Row
  -- the sequence behind `@default(autoincrement())`
  pub next_id : Store → ℕ
  pub find_first : (Row → Bool) → Store → Outcome (Option Row)
  pub find_many : (Row → Bool) → Store → Outcome (List Row)
  pub create : (ℕ → Row) → M Store Row
  pub update_many : (Row → Bool) → (Row → Row) → M Store ℕ
  pub update : (Row → Bool) → (Row → Row) → M Store Row
  pub delete_many : (Row → Bool) → M Store ℕ
  pub delete : (Row → Bool) → M Store Row
  pub find_first_lem : (p : Row → Bool) (s : Store) → Finds p (rows s) (find_first p s)
  pub find_many_lem : (p : Row → Bool) (s : Store) → FindsMany p (rows s) (find_many p s)
  pub create_lem :
      (make : ℕ → Row) (s : Store)
      → Creates clash make
          (next_id s)
          (rows s)
          (create make s).0
          (next_id (create make s).1)
          (rows (create make s).1)
  pub update_many_lem :
      (p : Row → Bool) (f : Row → Row) (s : Store)
      → Updates p f (rows s) (update_many p f s).0 (rows (update_many p f s).1)
        × (next_id s ≤ next_id (update_many p f s).1)
  pub update_lem :
      (p : Row → Bool) (f : Row → Row) (s : Store)
      → UpdatesOne p f (rows s) (update p f s).0 (rows (update p f s).1)
        × (next_id s ≤ next_id (update p f s).1)
  pub delete_many_lem :
      (p : Row → Bool) (s : Store)
      → Deletes p (rows s) (delete_many p s).0 (rows (delete_many p s).1)
        × (next_id s ≤ next_id (delete_many p s).1)
  pub delete_lem :
      (p : Row → Bool) (s : Store)
      → DeletesOne p (rows s) (delete p s).0 (rows (delete p s).1)
        × (next_id s ≤ next_id (delete p s).1)

-- The body answers and the transaction commits, or it fails and the rows are as they were; what the
-- body has written to local variables stays.
abbrev pub Transacts :
    {S V A : Type 0} → (S → S → Type 0) → S → Outcome A × (S × V) → Outcome A × (S × V) → Type 0
Transacts Same s (ok a, body) (r, after) =
    ((r ≡ ok a) × (after ≡ body))
    ⊎ ((e : Exception) × IsDatabase e × (r ≡ err e) × Same s after.0 × (after.1 ≡ body.1))
Transacts Same s (err e, body) (r, after) = (r ≡ err e) × Same s after.0 × (after.1 ≡ body.1)

-- `$transaction`, over the stores `S` and the local variables `V` of the function that calls it.
pub record Transactor (S : Type 0) (Same : S → S → Type 0) : Type 1 where
  pub transact : (V A : Type 0) → M (S × V) A → M (S × V) A
  pub transact_lem :
      (V A : Type 0) (m : M (S × V) A) (s : S) (v : V)
      → Transacts Same s (m (s, v)) (transact V A m (s, v))
