-- ===== src/Prelude/Tables.antt =====
-- A database table as a list of rows, with its primary key.
use Prim.Native.String.{String}
use mathlib.Core.Path.{◌≡◌}
use mathlib.Core.Logic.{◌≢◌, inl, inr}
use mathlib.Core.Bool.{Bool, true}
use mathlib.Core.Option.{Option}
use mathlib.Core.List.{List, [], ◌∷◌, ◌++◌}
use text.Mathlib.Text.{◌==◌}
use media_orchard.Prelude.Tests.{if◌then◌else◌, Bool-cases}
use media_orchard.Prelude.Lists.{All, find, any, Both, done, pair}

-- UPDATE … WHERE
abbrev pub update_where : {A : Type 0} → (A → Bool) → (A → A) → List A → List A
update_where p f [] = []
update_where p f (r ∷ rs) = (if p r then f r else r) ∷ update_where p f rs

module _ {A : Type 0} (key : A → String) where
  -- session.get(Table, id)
  abbrev pub get_row : String → List A → Option A
  get_row id = find (λ r. key r == id)

  abbrev pub has_row : String → List A → Bool
  has_row id = any (λ r. key r == id)

  -- What a changed object of the session writes at the commit: the row with its key.
  abbrev pub write_row : A → List A → List A
  write_row r = update_where (λ q. key q == key r) (λ _. r)

  -- session.add(object): a new row, or the changed one
  abbrev pub save_row : A → List A → List A
  save_row r rows = if has_row (key r) rows then write_row r rows else rows ++ (r ∷ [])

  -- The keys are pairwise different.
  abbrev pub HasDistinctKeys : List A → Type 0
  HasDistinctKeys [] = Unit
  HasDistinctKeys (r ∷ rs) = All (λ q. key q ≢ key r) rs × HasDistinctKeys rs

-- A conditional update relates each row to the row in its place.
pub update_where-Both {κ} :
    {A : Type 0} (R : A → A → Type κ) (p : A → Bool) (f : A → A)
    → ((r : A) → R r r)
    → ((r : A) → p r ≡ true → R r (f r))
    → (rows : List A) → Both R rows (update_where p f rows)
update_where-Both R p f same changed [] = done
update_where-Both R p f same changed (r ∷ rs) = elim (Bool-cases (p r)) [
  | inl e ↦ rw e (pair (changed r e) (update_where-Both R p f same changed rs))
  | inr e ↦ rw e (pair (same r) (update_where-Both R p f same changed rs))
]
