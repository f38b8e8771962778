-- ===== src/Prelude/Order.antt =====
-- Python's `<` on texts, by code points, and a stable sort by an order.
use Prim.Native.Char.{code}
use Prim.Native.String.{String}
use mathlib.Core.Path.{◌≡◌, refl, ap₂}
use mathlib.Core.Logic.{inl, inr}
use mathlib.Core.Bool.{Bool, true, false}
use mathlib.Core.List.{List, [], ◌∷◌}
use native.Mathlib.Omega.{arith}
use text.Mathlib.TextEquality.{Char-path}
use media_orchard.Prelude.Tests.{ltb, Bool-cases, if◌then◌else◌}
use media_orchard.Prelude.Lists.{All, Any, here, there}

unfoldable pub text_lt : String → String → Bool
text_lt String.[] String.[] = false
text_lt String.[] (String.◌∷◌ d t) = true
text_lt (String.◌∷◌ c s) String.[] = false
text_lt (String.◌∷◌ c s) (String.◌∷◌ d t) =
    let rest = text_lt s t in
    if ltb (code c) (code d) then true else if ltb (code d) (code c) then false else rest

pub text_lt_asymm : (s t : String) → text_lt s t ≡ true → text_lt t s ≡ false
unfolding text_lt
text_lt_asymm String.[] String.[] h = cc
text_lt_asymm String.[] (String.◌∷◌ d t) h = refl
text_lt_asymm (String.◌∷◌ c s) String.[] h = cc
text_lt_asymm (String.◌∷◌ c s) (String.◌∷◌ d t) h = ground (arith, text_lt_asymm s t)

pub text_not_lt_trans :
    (r s t : String) → text_lt s r ≡ false → text_lt t s ≡ false → text_lt t r ≡ false
unfolding text_lt
text_not_lt_trans String.[] s String.[] h k = refl
text_not_lt_trans String.[] s (String.◌∷◌ d t) h k = refl
text_not_lt_trans (String.◌∷◌ b r) String.[] t h k = cc
text_not_lt_trans (String.◌∷◌ b r) (String.◌∷◌ c s) String.[] h k = cc
text_not_lt_trans (String.◌∷◌ b r) (String.◌∷◌ c s) (String.◌∷◌ d t) h k =
    ground (arith, text_not_lt_trans r s t)

-- Two texts of which neither is less are one text.
pub text_lt_total : (s t : String) → text_lt s t ≡ false → text_lt t s ≡ false → s ≡ t
unfolding text_lt
text_lt_total String.[] String.[] h k = refl
text_lt_total String.[] (String.◌∷◌ d t) h k = cc
text_lt_total (String.◌∷◌ c s) String.[] h k = cc
text_lt_total (String.◌∷◌ c s) (String.◌∷◌ d t) h k =
    let e : code c ≡ code d = ground arith in
    ap₂ String.◌∷◌ (Char-path c d e) (text_lt_total s t (ground arith) (ground arith))

-- `lt` is a strict weak order.
pub record IsWeakOrder {ℓ} {A : Type ℓ} (lt : A → A → Bool) : Type ℓ where
  pub asymm : (x y : A) → lt x y ≡ true → lt y x ≡ false
  pub not_lt_trans : (x y z : A) → lt y x ≡ false → lt z y ≡ false → lt z x ≡ false

module _ {ℓ} {A : Type ℓ} (lt : A → A → Bool) where
  unfoldable pub insert_sorted : A → List A → List A
  insert_sorted x [] = x ∷ []
  insert_sorted x (y ∷ ys) =
      let rest = insert_sorted x ys in if lt y x then y ∷ rest else x ∷ y ∷ ys

  -- list.sort(): elements that the order does not tell apart keep their places.
  unfoldable pub sort : List A → List A
  unfolding insert_sorted
  sort [] = []
  sort (x ∷ xs) = insert_sorted x (sort xs)

  -- No element of the list is less than `m`.
  abbrev pub IsLeast : A → List A → Type 0
  IsLeast m = All (λ y. lt y m ≡ false)

  IsLeast-trans :
      IsWeakOrder lt → (m n : A) (xs : List A) → lt m n ≡ false → IsLeast m xs → IsLeast n xs
  IsLeast-trans o m n [] h l = tt
  IsLeast-trans o m n (x ∷ xs) h l = (o.not_lt_trans n m x h l.0, IsLeast-trans o m n xs h l.1)

  lt_irrefl : IsWeakOrder lt → (x : A) → lt x x ≡ false
  lt_irrefl o x = ground (arith, o.asymm x x)

  -- The first of `sorted` is in `xs` and least there; both are empty together.
  pub data Leads : List A → List A → Type ℓ where
    nothing : Leads [] []
    least :
        {m : A} {sorted xs : List A} → Any (λ y. y ≡ m) xs → IsLeast m xs → Leads (m ∷ sorted) xs

  insert_sorted-Leads :
      IsWeakOrder lt
      → (x : A) {sorted xs : List A} → Leads sorted xs
      → Leads (insert_sorted x sorted) (x ∷ xs)
  unfolding insert_sorted
  insert_sorted-Leads o x nothing = least (here refl) (lt_irrefl o x, tt)
  insert_sorted-Leads o x (least {m = m} {xs = xs} a l) = elim (Bool-cases (lt m x)) [
    | inl less ↦ rw less (least (there a) (o.asymm m x less, l))
    | inr more ↦ rw more (least (here refl) (lt_irrefl o x, IsLeast-trans o m x xs more l))
  ]

  pub sort-Leads : IsWeakOrder lt → (xs : List A) → Leads (sort xs) xs
  unfolding sort
  sort-Leads o [] = nothing
  sort-Leads o (x ∷ xs) = insert_sorted-Leads o x (sort-Leads o xs)
