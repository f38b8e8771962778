-- ===== src/Prelude/Lists.antt =====
-- Lists and options: searches, tests over all the elements, and the laws that tables need.
use Prim.Native.Nat.{ℕ, zero, suc}
use mathlib.Core.Path.{◌≡◌, subst}
use mathlib.Core.Logic.{◌⊎◌, inl, inr}
use mathlib.Core.Bool.{Bool, true, false, ◌&&◌, ◌||◌}
use mathlib.Core.Option.{Option, none, some}
use mathlib.Core.List.{List, [], ◌∷◌}
use media_orchard.Prelude.Tests.{if◌then◌else◌}

module _ {ℓ} {A : Type ℓ} where
  abbrev pub length : List A → ℕ
  length [] = 0
  length (x ∷ xs) = suc (length xs)

  abbrev pub all : (A → Bool) → List A → Bool
  all p [] = true
  all p (x ∷ xs) = p x && all p xs

  abbrev pub any : (A → Bool) → List A → Bool
  any p [] = false
  any p (x ∷ xs) = p x || any p xs

  -- [x for x in xs if p(x)]
  abbrev pub select : (A → Bool) → List A → List A
  select p [] = []
  select p (x ∷ xs) = let rest = select p xs in if p x then x ∷ rest else rest

  -- next((x for x in xs if p(x)), None)
  abbrev pub find : (A → Bool) → List A → Option A
  find p [] = none
  find p (x ∷ xs) = if p x then some x else find p xs

  -- sum(1 for x in xs if p(x))
  abbrev pub count : (A → Bool) → List A → ℕ
  count p [] = 0
  count p (x ∷ xs) = let rest = count p xs in if p x then suc rest else rest

  abbrev pub take : ℕ → List A → List A
  take zero xs = []
  take (suc n) [] = []
  take (suc n) (x ∷ xs) = x ∷ take n xs

  abbrev pub drop : ℕ → List A → List A
  drop zero xs = xs
  drop (suc n) [] = []
  drop (suc n) (x ∷ xs) = drop n xs

  abbrev pub is_empty : List A → Bool
  is_empty [] = true
  is_empty (x ∷ xs) = false

-- A predicate of each element, by recursion: the tactics read it.
abbrev pub All {ℓ κ} : {A : Type ℓ} → (A → Type κ) → List A → Type κ
All P [] = Unit
All P (x ∷ xs) = P x × All P xs

-- A predicate of some element, with the place kept.
pub data Any {ℓ κ} {A : Type ℓ} (P : A → Type κ) : List A → Type (ℓ ⊔ κ) where
  here : {x : A} {xs : List A} → P x → Any P (x ∷ xs)
  there : {x : A} {xs : List A} → Any P xs → Any P (x ∷ xs)

-- Two lists related place by place.
pub data Both {ℓ κ} {A : Type ℓ} (R : A → A → Type κ) : List A → List A → Type (ℓ ⊔ κ) where
  done : Both R [] []
  pair : {x y : A} {xs ys : List A} → R x y → Both R xs ys → Both R (x ∷ xs) (y ∷ ys)

pub Both-refl {ℓ κ} :
    {A : Type ℓ} {R : A → A → Type κ} → ((x : A) → R x x) → (xs : List A) → Both R xs xs
Both-refl h [] = done
Both-refl h (x ∷ xs) = pair (h x) (Both-refl h xs)

pub Both-trans {ℓ κ} :
    {A : Type ℓ} {R : A → A → Type κ}
    → ((x y z : A) → R x y → R y z → R x z)
    → {xs ys zs : List A} → Both R xs ys
    → Both R ys zs
    → Both R xs zs
Both-trans t done done = done
Both-trans t (pair {x = a} {y = b} r p) (pair {y = c} s q) = pair (t a b c r s) (Both-trans t p q)

module _ {ℓ κ} {A : Type ℓ} (P : A → Type κ) where
  pub not-Any-nil : ¬ Any P []
  not-Any-nil a = elim a [ ]

  pub Any-cons : {x : A} {xs : List A} → Any P (x ∷ xs) → P x ⊎ Any P xs
  Any-cons (here p) = inl p
  Any-cons (there a) = inr a

module _ {ℓ κ μ} {A : Type ℓ} (P : A → Type κ) (Q : A → Type μ) where
  pub All-map : ((a : A) → P a → Q a) → (xs : List A) → All P xs → All Q xs
  All-map f [] h = tt
  All-map f (x ∷ xs) (p, h) = (f x p, All-map f xs h)

module _ {ℓ κ} {A : Type ℓ} (P : A → Type κ) where
  -- What holds of all the elements holds of one.
  pub All-Any : (a : A) (xs : List A) → All P xs → Any (λ x. x ≡ a) xs → P a
  All-Any a [] h i = elim i [ ]
  All-Any a (x ∷ xs) (p, h) (here e) = subst P e p
  All-Any a (x ∷ xs) (p, h) (there i) = All-Any a xs h i
