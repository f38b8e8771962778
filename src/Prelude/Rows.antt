-- ===== src/Prelude/Rows.antt =====
-- The rows of a table by their keys.
use media_orchard.Prelude.{
  String, ◌≡◌, refl, subst, ◌≢◌, inl, inr, Bool, true, some, List, [], ◌∷◌, ◌++◌, arith, ◌==◌,
  eq_iff, eq_refl, Bool-cases, select, All, Both, done, pair,
}
use media_orchard.Prelude.Tables.{get_row, has_row, write_row, HasDistinctKeys}

module _ {A : Type 0} (key : A → String) where
  -- The row that is found has the key.
  pub key-get_row :
      (id : String) (rows : List A) (r : A) → get_row key id rows ≡ some r → key r ≡ id
  key-get_row id [] r g = cc
  key-get_row id (x ∷ xs) r g = elim (Bool-cases (key x == id)) [
    | inl same ↦ let g' = rw same at g in ground (arith, eq_iff (key x) id)
    | inr other ↦ key-get_row id xs r (rw other at g)
  ]

  -- What holds of every row holds of one that is found.
  pub All-get_row :
      (P : A → Type 0) (id : String) (rows : List A) (r : A)
      → All P rows
      → get_row key id rows ≡ some r
      → P r
  All-get_row P id [] r h g = cc
  All-get_row P id (x ∷ xs) r (h, hs) g = elim (Bool-cases (key x == id)) [
    | inl same ↦ subst P (let g' = rw same at g in cc) h
    | inr other ↦ All-get_row P id xs r hs (rw other at g)
  ]

  -- What holds of every row that can be found holds of every row, in a table with distinct keys.
  pub rows-All :
      {P : A → Type 0} (rows : List A)
      → HasDistinctKeys key rows
      → ((r : A) → get_row key (key r) rows ≡ some r → P r)
      → All P rows
  rows-All [] d h = tt
  rows-All (x ∷ xs) (l, d) h = (
    h x (rw (eq_refl (key x)) refl),
    rows-All xs d λ r g.
        let n : key r ≢ key x = All-get_row (λ q. key q ≢ key x) (key r) xs r l g in
        h r (ground (arith, eq_iff (key x) (key r), g)),
  )

  -- A changed object is written to the row with its key.
  pub get_row-write_row :
      (id : String) (r r' : A) (rows : List A)
      → key r' ≡ id
      → get_row key id rows ≡ some r
      → get_row key id (write_row key r' rows) ≡ some r'
  get_row-write_row id r r' [] e g = cc
  get_row-write_row id r r' (x ∷ xs) e g = elim (Bool-cases (key x == id)) [
    | inl same ↦ rw (e, same, e, eq_refl id) refl
    | inr other ↦ rw (e, other, other) (get_row-write_row id r r' xs e (rw other at g))
  ]

-- The rows that a test selects, where the property may use the test.
pub All-selected :
    {A : Type 0} (P : A → Type 0) (p : A → Bool) (rows : List A)
    → All (λ r. p r ≡ true → P r) rows
    → All P (select p rows)
All-selected P p [] h = tt
All-selected P p (r ∷ rs) (q, h) = elim (Bool-cases (p r)) [
  | inl e ↦ rw e (q e, All-selected P p rs h)
  | inr e ↦ rw e (All-selected P p rs h)
]

-- A row that is found and selected.
pub select-found :
    {A : Type 0} (key : A → String) (p : A → Bool) (id : String) (r : A) (rows : List A)
    → get_row key id rows ≡ some r
    → p r ≡ true
    → select p rows ≢ []
select-found key p id r [] g e n = cc
select-found key p id r (x ∷ xs) g e n = elim (Bool-cases (p x)) [
  | inl h ↦ let n' = rw h at n in cc
  | inr h ↦ elim (Bool-cases (key x == id)) [
    | inl same ↦ let g' = rw same at g in cc
    | inr other ↦ select-found key p id r xs (rw other at g) e (rw h at n)
  ]
]

-- What holds of the selected rows holds of every row that the test holds of.
pub All-unselected :
    {A : Type 0} (P : A → Type 0) (p : A → Bool) (rows : List A)
    → All P (select p rows)
    → All (λ r. p r ≡ true → P r) rows
All-unselected P p [] h = tt
All-unselected P p (r ∷ rs) h = elim (Bool-cases (p r)) [
  | inl e ↦
      let h' : P r × All P (select p rs) = rw e at h in ((λ _. h'.0), All-unselected P p rs h'.1)
  | inr e ↦ let h' : All P (select p rs) = rw e at h in ((λ q. cc), All-unselected P p rs h')
]

-- What holds of a row that is written and of every row before holds of every row after.
pub All-write_row :
    {A : Type 0} (P : A → Type 0) (key : A → String) (r : A) (rows : List A)
    → P r
    → All P rows
    → All P (write_row key r rows)
All-write_row P key r [] q h = tt
All-write_row P key r (x ∷ xs) q (p, h) = elim (Bool-cases (key x == key r)) [
  | inl e ↦ rw e (q, All-write_row P key r xs q h)
  | inr e ↦ rw e (p, All-write_row P key r xs q h)
]

-- A predicate that a relation carries over.
pub All-Both :
    {A : Type 0} {R : A → A → Type 0} (P : A → Type 0)
    → ((x y : A) → R x y → P x → P y)
    → {xs ys : List A} → Both R xs ys
    → All P xs
    → All P ys
All-Both P carry done h = tt
All-Both P carry (pair {x = a} {y = b} r rest) (p, h) = (carry a b r p, All-Both P carry rest h)

module _ {A : Type 0} (P Q : A → Type 0) where
  pub All-both : (xs : List A) → All P xs → All Q xs → All (λ x. P x × Q x) xs
  All-both [] h k = tt
  All-both (x ∷ xs) (p, h) (q, k) = ((p, q), All-both xs h k)

-- A row that is added at the end.
pub All-added :
    {A : Type 0} (P : A → Type 0) (xs : List A) (y : A) → All P xs → P y → All P (xs ++ (y ∷ []))
All-added P [] y h p = (p, tt)
All-added P (x ∷ xs) y (q, h) p = (q, All-added P xs y h p)

module _ {A : Type 0} (key : A → String) where
  -- Writing a row changes no key.
  pub has_row-write_row :
      (id : String) (r : A) (rows : List A)
      → has_row key id (write_row key r rows) ≡ has_row key id rows
  has_row-write_row id r [] = refl
  has_row-write_row id r (x ∷ xs) = elim (Bool-cases (key x == key r)) [
    | inl e ↦ rw (e, has_row-write_row id r xs, (eq_iff (key x) (key r)).0 e) refl
    | inr e ↦ rw (e, has_row-write_row id r xs) refl
  ]

  pub has_row-added :
      (id : String) (rows : List A) (r : A)
      → has_row key id rows ≡ true
      → has_row key id (rows ++ (r ∷ [])) ≡ true
  has_row-added id [] r h = cc
  has_row-added id (x ∷ xs) r h = elim (Bool-cases (key x == id)) [
    | inl e ↦ rw e refl
    | inr e ↦ rw e (has_row-added id xs r (rw e at h))
  ]

  pub has_row-last :
      (id : String) (rows : List A) (r : A) → key r ≡ id → has_row key id (rows ++ (r ∷ [])) ≡ true
  has_row-last id [] r e = rw (e, eq_refl id) refl
  has_row-last id (x ∷ xs) r e = elim (Bool-cases (key x == id)) [
    | inl h ↦ rw h refl
    | inr h ↦ rw h (has_row-last id xs r e)
  ]
