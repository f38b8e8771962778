-- ===== src/Prelude/Growth.antt =====
-- Tables that change row by row and grow at the end, and keys through filters and sorts.
use media_orchard.Prelude.Tables.{HasDistinctKeys}
use media_orchard.Prelude.Order.{sort, insert_sorted}
use mathlib.Core.Path.{◌≡◌, refl, sym, ◌∙◌}
use mathlib.Core.Logic.{◌≢◌, inl, inr}
use mathlib.Core.Bool.{Bool, false}
use mathlib.Core.List.{List, [], ◌∷◌, ◌++◌}
use Prim.Native.String.{String}
use native.Mathlib.Omega.{arith}
use text.Mathlib.TextEquality.{eq_iff}
use text.Mathlib.Text.{◌==◌}
use media_orchard.Prelude.Tests.{Bool-cases}
use media_orchard.Prelude.Lists.{All, All-map, Both, done, pair, select, any}

-- Each row of the first list stands in its place in the second, changed by `R`; the second may have
-- more rows behind.
pub data Extends {ℓ κ} {A : Type ℓ} (R : A → A → Type κ) : List A → List A → Type (ℓ ⊔ κ) where
  added : (rows : List A) → Extends R [] rows
  kept : {x y : A} {xs ys : List A} → R x y → Extends R xs ys → Extends R (x ∷ xs) (y ∷ ys)

module _ {ℓ κ} {A : Type ℓ} {R : A → A → Type κ} where
  pub Extends-refl : ((x : A) → R x x) → (xs : List A) → Extends R xs xs
  Extends-refl r [] = added []
  Extends-refl r (x ∷ xs) = kept (r x) (Extends-refl r xs)

  pub Extends-append : ((x : A) → R x x) → (xs rows : List A) → Extends R xs (xs ++ rows)
  Extends-append r [] rows = added rows
  Extends-append r (x ∷ xs) rows = kept (r x) (Extends-append r xs rows)

  pub Both-Extends : {xs ys : List A} → Both R xs ys → Extends R xs ys
  Both-Extends done = added []
  Both-Extends (pair r b) = kept r (Both-Extends b)

  pub Extends-trans :
      ((x y z : A) → R x y → R y z → R x z)
      → {xs ys zs : List A} → Extends R xs ys
      → Extends R ys zs
      → Extends R xs zs
  Extends-trans t (added rows) q = added _
  Extends-trans t (kept {x = a} {y = b} r p) (kept {y = c} s q) =
      kept (t a b c r s) (Extends-trans t p q)

module _ {A : Type 0} (key : A → String) where
  -- No row has this key.
  abbrev pub Lacks : String → List A → Type 0
  Lacks k = All (λ q. key q ≢ k)

  module _ {κ} {R : A → A → Type κ} (same : (x y : A) → R x y → key y ≡ key x) where
    Lacks-Both : (k : String) {xs ys : List A} → Both R xs ys → Lacks k xs → Lacks k ys
    Lacks-Both k done h = tt
    Lacks-Both k (pair {x = a} {y = b} r p) (n, h) =
        (λ e. n (sym (same a b r) ∙ e), Lacks-Both k p h)

    -- Rows that keep their keys keep them distinct.
    pub HasDistinctKeys-Both :
        {xs ys : List A} → Both R xs ys → HasDistinctKeys key xs → HasDistinctKeys key ys
    HasDistinctKeys-Both done h = tt
    HasDistinctKeys-Both (pair {x = a} {y = b} {ys = zs} r p) (n, h) =
        (rw (same a b r) (Lacks-Both (key a) p n), HasDistinctKeys-Both p h)

  pub any-Lacks : (k : String) (xs : List A) → any (λ q. key q == k) xs ≡ false → Lacks k xs
  any-Lacks k [] h = tt
  any-Lacks k (x ∷ xs) h = (λ e. ground (arith, eq_iff (key x) k), any-Lacks k xs (ground arith))

  Lacks-append :
      (k : String) (xs : List A) (y : A) → Lacks k xs → key y ≢ k → Lacks k (xs ++ (y ∷ []))
  Lacks-append k [] y h n = (n, tt)
  Lacks-append k (x ∷ xs) y (m, h) n = (m, Lacks-append k xs y h n)

  -- INSERT of a row whose key is new.
  pub HasDistinctKeys-append :
      (xs : List A) (y : A)
      → any (λ q. key q == key y) xs ≡ false
      → HasDistinctKeys key xs
      → HasDistinctKeys key (xs ++ (y ∷ []))
  HasDistinctKeys-append [] y h d = (tt, tt)
  HasDistinctKeys-append (x ∷ xs) y h (n, d) = (
    Lacks-append (key x) xs y n (λ e. ground (arith, eq_iff (key x) (key y))),
    HasDistinctKeys-append xs y (ground arith) d,
  )

module _ {ℓ} {A : Type 0} (P : A → Type ℓ) where
  pub All-select : (p : A → Bool) (xs : List A) → All P xs → All P (select p xs)
  All-select p [] h = tt
  All-select p (x ∷ xs) (q, h) = elim (Bool-cases (p x)) [
    | inl e ↦ rw e (q, All-select p xs h)
    | inr e ↦ rw e (All-select p xs h)
  ]

  All-insert_sorted :
      (lt : A → A → Bool) (x : A) (xs : List A) → P x → All P xs → All P (insert_sorted lt x xs)
  unfolding insert_sorted
  All-insert_sorted lt x [] q h = (q, tt)
  All-insert_sorted lt x (y ∷ ys) q (r, h) = elim (Bool-cases (lt y x)) [
    | inl e ↦ rw e (r, All-insert_sorted lt x ys q h)
    | inr e ↦ rw e (q, (r, h))
  ]

  pub All-sort : (lt : A → A → Bool) (xs : List A) → All P xs → All P (sort lt xs)
  unfolding sort
  All-sort lt [] h = tt
  All-sort lt (x ∷ xs) (q, h) = All-insert_sorted lt x (sort lt xs) q (All-sort lt xs h)

module _ {A : Type 0} (key : A → String) where
  pub HasDistinctKeys-select :
      (p : A → Bool) (xs : List A) → HasDistinctKeys key xs → HasDistinctKeys key (select p xs)
  HasDistinctKeys-select p [] h = tt
  HasDistinctKeys-select p (x ∷ xs) (n, h) = elim (Bool-cases (p x)) [
    | inl e ↦ rw e (All-select _ p xs n, HasDistinctKeys-select p xs h)
    | inr e ↦ rw e (HasDistinctKeys-select p xs h)
  ]

  HasDistinctKeys-insert_sorted :
      (lt : A → A → Bool) (x : A) (xs : List A)
      → Lacks key (key x) xs
      → HasDistinctKeys key xs
      → HasDistinctKeys key (insert_sorted lt x xs)
  unfolding insert_sorted
  HasDistinctKeys-insert_sorted lt x [] n h = (tt, tt)
  HasDistinctKeys-insert_sorted lt x (y ∷ ys) (m, n) (k, h) = elim (Bool-cases (lt y x)) [
    | inl e ↦
        rw e (
          All-insert_sorted _ lt x ys (λ q. m (sym q)) k,
          HasDistinctKeys-insert_sorted lt x ys n h,
        )
    | inr e ↦ rw e ((m, n), (k, h))
  ]

  pub HasDistinctKeys-sort :
      (lt : A → A → Bool) (xs : List A) → HasDistinctKeys key xs → HasDistinctKeys key (sort lt xs)
  unfolding sort
  HasDistinctKeys-sort lt [] h = tt
  HasDistinctKeys-sort lt (x ∷ xs) (n, h) =
      HasDistinctKeys-insert_sorted lt x (sort lt xs) (All-sort _ lt xs n)
        (HasDistinctKeys-sort lt xs h)

  -- The row with the key of `s`, if there is one, is `s`.
  abbrev pub Agrees : A → List A → Type 0
  Agrees s = All (λ q. key q ≡ key s → q ≡ s)

  -- Each row of a table with distinct keys is the row with its key.
  pub HasDistinctKeys-Agrees : (xs : List A) → HasDistinctKeys key xs → All (λ s. Agrees s xs) xs
  HasDistinctKeys-Agrees [] h = tt
  HasDistinctKeys-Agrees (x ∷ xs) (n, h) = (
    (λ _. refl, All-map _ _ (λ q m e. absurd (m e)) xs n),
    add_other x xs xs n (HasDistinctKeys-Agrees xs h),
  )
    where
      add_other :
          (x : A) (all_rows rows : List A)
          → Lacks key (key x) rows
          → All (λ s. Agrees s all_rows) rows
          → All (λ s. Agrees s (x ∷ all_rows)) rows
      add_other x rows [] n h = tt
      add_other x rows (y ∷ ys) (m, n) (a, h) =
          ((λ e. absurd (m (sym e)), a), add_other x rows ys n h)
