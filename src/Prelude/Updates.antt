-- ===== src/Prelude/Updates.antt =====
-- A conditional UPDATE that names one row by its key.
use media_orchard.Prelude.{
  String, ◌≡◌, refl, ◌≢◌, inl, inr, Bool, true, false, some, List, [], ◌∷◌, arith, ◌==◌, eq_iff,
  Bool-cases, count,
}
use media_orchard.Prelude.Tables.{update_where, get_row, HasDistinctKeys}
use media_orchard.Prelude.Growth.{Lacks}

module _ {A : Type 0} (key : A → String) (id : String) where
  -- The test holds of rows with the key `id` alone.
  abbrev pub Names : (A → Bool) → Type 0
  Names p = (r : A) → p r ≡ true → key r ≡ id

  count-Lacks : (p : A → Bool) → Names p → (rows : List A) → Lacks key id rows → count p rows ≡ 0
  count-Lacks p h [] l = refl
  count-Lacks p h (r ∷ rs) (n, l) = elim (Bool-cases (p r)) [
    | inl e ↦ absurd (n (h r e))
    | inr e ↦ rw e (count-Lacks p h rs l)
  ]

  update_where-Lacks :
      (p : A → Bool) (f : A → A)
      → Names p
      → (rows : List A) → Lacks key id rows
      → update_where p f rows ≡ rows
  update_where-Lacks p f h [] l = refl
  update_where-Lacks p f h (r ∷ rs) (n, l) = elim (Bool-cases (p r)) [
    | inl e ↦ absurd (n (h r e))
    | inr e ↦ rw (e, update_where-Lacks p f h rs l) refl
  ]

  -- A row that the test holds of is not behind a row with the same key.
  count-positive :
      (p : A → Bool)
      → Names p
      → (r : A) (rs : List A) → Lacks key (key r) rs
      → count p rs ≡ 1
      → key r ≢ id
  count-positive p h r rs l c e =
      let none : count p rs ≡ 0 = count-Lacks p h rs (rw e at l) in omega (arith, none, c)

  -- A test that holds of the row with the key holds of that row alone.
  pub count_one :
      (p : A → Bool)
      → Names p
      → (rows : List A) (r : A) → HasDistinctKeys key rows
      → get_row key id rows ≡ some r
      → p r ≡ true
      → count p rows ≡ 1
  count_one p h [] r d g e = cc
  count_one p h (x ∷ xs) r (l, d) g e = elim (Bool-cases (key x == id)) [
    | inl same ↦
        let is_r : x ≡ r = (let g' = rw same at g in cc) in
        let l' : Lacks key id xs = rw ((eq_iff (key x) id).0 same) at l in
        let here_e : p x ≡ true = rw is_r e in rw (here_e, count-Lacks p h xs l') refl
    | inr other ↦
        let g' : get_row key id xs ≡ some r = rw other at g in
        elim (Bool-cases (p x)) [
          | inl there_e ↦ let same = (eq_iff (key x) id).1 (h x there_e) in cc
          | inr not_e ↦ rw not_e (count_one p h xs r d g' e)
        ]
  ]

  module _ (p : A → Bool) (names : Names p) (f : A → A) (keeps : (r : A) → key (f r) ≡ key r) where
    -- The one row that is updated, before and after.
    pub updated_row :
        (rows : List A)
        → HasDistinctKeys key rows
        → count p rows ≡ 1
        → (r : A) × (get_row key id rows ≡ some r)
          × (p r ≡ true)
          × (get_row key id (update_where p f rows) ≡ some (f r))
    updated_row [] d c = cc
    updated_row (r ∷ rs) (l, d) c = elim (Bool-cases (p r)) [
      | inl e ↦
          let found : (key r == id) ≡ true = (eq_iff (key r) id).1 (names r e) in
          let found' : (key (f r) == id) ≡ true = rw (keeps r) found in
          (r, rw found refl, e, rw (e, found') refl)
      | inr e ↦
          let c' : count p rs ≡ 1 = rw e at c in
          let (q, g, h, u) = updated_row rs d c' in
          elim (Bool-cases (key r == id)) [
            | inl same ↦ absurd (count-positive p names r rs l c' ((eq_iff (key r) id).0 same))
            | inr other ↦ (q, rw other g, h, rw (e, other) u)
          ]
    ]

    -- An UPDATE whose test the first one made false finds no row.
    pub second_update :
        (q : A → Bool)
        → Names q
        → ((r : A) → p r ≡ true → q (f r) ≡ false)
        → (rows : List A) → HasDistinctKeys key rows
        → count p rows ≡ 1
        → count q (update_where p f rows) ≡ 0
    second_update q names_q out [] d c = refl
    second_update q names_q out (r ∷ rs) (l, d) c = elim (Bool-cases (p r)) [
      | inl e ↦
          let l' : Lacks key id rs = rw (names r e) at l in
          rw (e, out r e, update_where-Lacks p f names rs l') (count-Lacks q names_q rs l')
      | inr e ↦
          let c' : count p rs ≡ 1 = rw e at c in
          elim (Bool-cases (q r)) [
            | inl eq ↦ absurd (count-positive p names r rs l c' (names_q r eq))
            | inr ne ↦ rw (e, ne) (second_update q names_q out rs d c')
          ]
    ]

    -- Rows with other keys stay.
    pub other_row :
        (other : String)
        → other ≢ id
        → (rows : List A) → get_row key other (update_where p f rows) ≡ get_row key other rows
    other_row other n [] = refl
    other_row other n (r ∷ rs) = elim (Bool-cases (p r)) [
      | inl e ↦
          let differs : (key r == other) ≡ false =
            ground (arith, eq_iff (key r) other, names r e) in
          let differs' : (key (f r) == other) ≡ false = rw (keeps r) differs in
          rw (e, differs, differs') (other_row other n rs)
      | inr e ↦ elim (Bool-cases (key r == other)) [
        | inl same ↦ rw (e, same) refl
        | inr differs ↦ rw (e, differs) (other_row other n rs)
      ]
    ]
