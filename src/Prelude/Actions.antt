-- ===== src/Prelude/Actions.antt =====
-- Code with a state and exceptions: the exception is a value, and the state comes back with it,
-- since what was done stays done.
use mathlib.Core.Path.{◌≡◌, refl, subst}
use mathlib.Core.Bool.{Bool, true, false}
use media_orchard.Prelude.Tests.{if◌then◌else◌}
use media_orchard.Prelude.Results.{Result, ok, err}
use Prim.Native.String.{String}

abbrev pub Action : Type 0 → Type 0 → Type 0
Action S A = S → Result String A × S

module _ {S : Type 0} where
  abbrev pub pure : {A : Type 0} → A → Action S A
  pure a s = (ok a, s)

  abbrev pub raise : {A : Type 0} → String → Action S A
  raise e s = (err e, s)

  abbrev pub gets : {A : Type 0} → (S → A) → Action S A
  gets f s = (ok (f s), s)

  abbrev pub returning : {A : Type 0} → Result String A → Action S A
  returning r s = (r, s)

  -- The rest of the code, from where an action has ended.
  abbrev pub continue : {A B : Type 0} → Result String A → (A → Action S B) → Action S B
  continue (err e) k s = (err e, s)
  continue (ok a) k s = k a s

  infixl 5 ◌>>=◌ ◌>>◌
  abbrev pub ◌>>=◌ : {A B : Type 0} → Action S A → (A → Action S B) → Action S B
  ◌>>=◌ m k s = continue (m s).0 k (m s).1

  abbrev pub ◌>>◌ : {A B : Type 0} → Action S A → Action S B → Action S B
  m >> k = m >>= λ _. k

  -- `if test: action`
  abbrev pub when : Bool → Action S (Unit {0}) → Action S (Unit {0})
  when true m = m
  when false m = pure tt

-- An action that succeeds ends with a result and in a state that satisfy `P`.
pub record Always {S A : Type 0} (P : A → S → Type 0) (act : Action S A) : Type 0 where
  pub at : (s : S) (a : A) → (act s).0 ≡ ok a → P a (act s).1

pub ok-injective : {E A : Type 0} {a b : A} (r : Result E A) → r ≡ ok a → r ≡ ok b → a ≡ b
ok-injective r h g = cc

continue-Always :
    {S A B : Type 0} (P : B → S → Type 0) (r : Result String A) (rest : A → Action S B)
    → ((a : A) → Always P (rest a))
    → (s : S) (b : B) → (continue r rest s).0 ≡ ok b
    → P b (continue r rest s).1
continue-Always P (err e) rest l s b f = cc
continue-Always P (ok a) rest l s b f = (l a).at s b f

continue-ok :
    {S A B : Type 0} (r : Result String A) (rest : A → Action S B) (s : S) (b : B)
    → (continue r rest s).0 ≡ ok b
    → (a : A) × (r ≡ ok a) × (continue r rest s ≡ rest a s)
continue-ok (err e) rest s b f = cc
continue-ok (ok a) rest s b f = (a, refl, refl)

-- A sequence that succeeds has succeeded in its first part, and is then the rest.
pub bind-ok :
    {S A B : Type 0} (act : Action S A) (rest : A → Action S B) (s : S) (b : B)
    → ((act >>= rest) s).0 ≡ ok b
    → (a : A) × ((act s).0 ≡ ok a) × ((act >>= rest) s ≡ rest a (act s).1)
bind-ok act rest s b f = continue-ok (act s).0 rest (act s).1 b f

-- What the last part of a sequence ensures.
pub Always-last :
    {S A B : Type 0} {P : B → S → Type 0} (act : Action S A) (rest : A → Action S B)
    → ((a : A) → Always P (rest a))
    → Always P (act >>= rest)
Always-last {P = P} act rest l = record { at = λ s. continue-Always P (act s).0 rest l (act s).1 }

-- `if test: raise error` after an action.
pub guarded :
    {S A : Type 0} (r : Result String (Unit {0})) (test : Bool) (a b : A) (e : String) (s : S)
    → (continue r (λ _. if test then pure a else raise e) s).0 ≡ ok b
    → (test ≡ true)
      × (b ≡ a)
      × (r ≡ ok tt)
      × ((continue r (λ _. if test then pure a else raise e) s).1 ≡ s)
guarded (err e') test a b e s f = cc
guarded (ok _) true a b e s f = (refl, cc, refl, refl)
guarded (ok _) false a b e s f = cc

-- `if not test: raise error` before an action.
pub checked-Always :
    {S A : Type 0} {P : A → S → Type 0} (test : Bool) (e : String) (act : Action S A)
    → (test ≡ true → Always P act)
    → Always P ((if test then pure tt else raise e) >> act)
checked-Always true e act l = record { at = (l refl).at }
checked-Always false e act l = record { at = λ s a f. cc }

pub choice-Always :
    {S A : Type 0} {P : A → S → Type 0} (b : Bool) (x y : Action S A)
    → (b ≡ true → Always P x)
    → (b ≡ false → Always P y)
    → Always P (if b then x else y)
choice-Always true x y l r = l refl
choice-Always false x y l r = r refl

pub raise-Always : {S A : Type 0} {P : A → S → Type 0} (e : String) → Always P (raise e)
raise-Always e = record { at = λ s a f. cc }

map-continue :
    {S A B : Type 0} (P : A → S → Type 0) (Q : B → S → Type 0) (r : Result String A) (f : A → B)
    (s : S)
    → ((a : A) → r ≡ ok a → P a s)
    → ((a : A) → P a s → Q (f a) s)
    → (b : B) → (continue r (λ a. pure (f a)) s).0 ≡ ok b
    → Q b (continue r (λ a. pure (f a)) s).1
map-continue P Q (err e) f s l q b h = cc
map-continue P Q (ok a) f s l q b h =
    subst (λ x. Q x s) (ok-injective (ok (f a)) refl h) (q a (l a refl))

-- A result that is read off that of an action.
pub Always-map :
    {S A B : Type 0} {P : A → S → Type 0} {Q : B → S → Type 0} (act : Action S A) (f : A → B)
    → Always P act
    → ((a : A) (s : S) → P a s → Q (f a) s)
    → Always Q (act >>= λ a. pure (f a))
Always-map {P = P} {Q = Q} act f l q = record {
  at = λ s. map-continue P Q (act s).0 f (act s).1 (l.at s) (λ a. q a (act s).1);
}

pub Always-returning :
    {S A B : Type 0} {P : B → S → Type 0} (r : Result String A) (rest : A → Action S B)
    → ((a : A) → r ≡ ok a → Always P (rest a))
    → Always P (returning r >>= rest)
Always-returning (err e) rest l = record { at = λ s b f. cc }
Always-returning (ok a) rest l = record { at = (l a refl).at }
