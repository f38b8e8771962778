-- ===== src/Worker/Machine/Frames.antt =====
-- Actions that leave a file as it is, and what a sequence of actions leaves in a file.
use media_orchard.Prelude.{String, ◌≡◌, refl, ◌∙◌, ◌≢◌, Bool, true, false, some, ◌==◌, eq_refl}
use media_orchard.Prelude.Results.{Result, ok, err}
use media_orchard.Prelude.Actions.{Action, pure, gets, when, continue, ◌>>=◌}
use media_orchard.Worker.Machine.{Machine, KeepsFiles, FilePath, root, parent, name_of, write_text}

-- The file at `q` is after the action what it was before.
pub record Keeps {F S : Type 0} (m : Machine F S) (q : FilePath) {A : Type 0} (act : Action S A)
    : Type 0 where
  pub at : (s : S) → m.read q (act s).1 ≡ m.read q s

-- An action that succeeds leaves the text `c` in the file at `q`.
pub record Leaves {F S : Type 0} (m : Machine F S) (q : FilePath) (c : String) {A : Type 0}
    (act : Action S A) : Type 0 where
  pub at : (s : S) (a : A) → (act s).0 ≡ ok a → m.read q (act s).1 ≡ some c

module _ {F S : Type 0} (m : Machine F S) (q : FilePath) where
  Leaves-continue :
      {A B : Type 0} (r : Result String A) (rest : A → Action S B) (c : String)
      → ((a : A)
          → r ≡ ok a
          → (s : S) (b : B) → (rest a s).0 ≡ ok b
          → m.read q (rest a s).1 ≡ some c)
      → (s : S) (b : B) → (continue r rest s).0 ≡ ok b
      → m.read q (continue r rest s).1 ≡ some c
  Leaves-continue (err e) rest c l s b f = cc
  Leaves-continue (ok a) rest c l s b f = l a refl s b f

  after_first :
      {A B : Type 0} (r : Result String A) (rest : A → Action S B) (c : String) (s : S)
      → ((a : A) → r ≡ ok a → m.read q s ≡ some c)
      → ((a : A) → Keeps m q (rest a))
      → (b : B) → (continue r rest s).0 ≡ ok b
      → m.read q (continue r rest s).1 ≡ some c
  after_first (err e) rest c s l k b f = cc
  after_first (ok a) rest c s l k b f = (k a).at s ∙ l a refl

module _ {F S : Type 0} {m : Machine F S} {q : FilePath} where
  pub Keeps-pure : {A : Type 0} (a : A) → Keeps m q (pure a)
  Keeps-pure a = record { at = λ s. refl }

  pub Keeps-gets : {A : Type 0} (f : S → A) → Keeps m q (gets f)
  Keeps-gets f = record { at = λ s. refl }

  pub Keeps-when : (b : Bool) (act : Action S (Unit {0})) → Keeps m q act → Keeps m q (when b act)
  Keeps-when true act k = k
  Keeps-when false act k = record { at = λ s. refl }

  Keeps-continue :
      {A B : Type 0} (r : Result String A) (rest : A → Action S B)
      → ((a : A) → Keeps m q (rest a))
      → (s : S) → m.read q (continue r rest s).1 ≡ m.read q s
  Keeps-continue (err e) rest k s = refl
  Keeps-continue (ok a) rest k s = (k a).at s

  pub Keeps-bind :
      {A B : Type 0} (act : Action S A) (rest : A → Action S B)
      → Keeps m q act
      → ((a : A) → Keeps m q (rest a))
      → Keeps m q (act >>= rest)
  Keeps-bind act rest k l = record { at = λ s. Keeps-continue (act s).0 rest l (act s).1 ∙ k.at s }

  pub Leaves-last :
      {A B : Type 0} (act : Action S A) (rest : A → Action S B) {c : String}
      → ((a : A) → Leaves m q c (rest a))
      → Leaves m q c (act >>= rest)
  Leaves-last act rest {c} l = record {
    at = λ s. Leaves-continue m q (act s).0 rest c (λ a _. (l a).at) (act s).1;
  }

  pub Leaves-first :
      {A B : Type 0} (act : Action S A) (rest : A → Action S B) {c : String}
      → Leaves m q c act
      → ((a : A) → Keeps m q (rest a))
      → Leaves m q c (act >>= rest)
  Leaves-first act rest {c} l k = record {
    at = λ s. after_first m q (act s).0 rest c (act s).1 (l.at s) k;
  }

  module _ (files : KeepsFiles m) where
    apart : (p : FilePath) → (name_of p == name_of q) ≡ false → p ≢ q
    apart p d e = cc (eq_refl (name_of q))

    Keeps-mkdir : (p : FilePath) → Keeps m q (m.mkdir p)
    Keeps-mkdir p = record { at = files.read_mkdir p q }

    pub Keeps-write_text :
        (p : FilePath) (c : String)
        → root p ≡ root q
        → (name_of p == name_of q) ≡ false
        → Keeps m q (write_text m p c)
    unfolding write_text
    Keeps-write_text p c e d =
        Keeps-bind (m.mkdir (parent p)) _ (Keeps-mkdir (parent p))
          (λ a. record { at = λ s. files.read_write_other p q c s e (apart p d) })

    pub Leaves-write_text : (c : String) → Leaves m q c (write_text m q c)
    unfolding write_text
    Leaves-write_text c =
        Leaves-last (m.mkdir (parent q)) _ (λ a. record { at = λ s b e. files.read_write q c s e })

pub Leaves-when :
    {F S : Type 0} {m : Machine F S} {q : FilePath} (b : Bool) (act : Action S (Unit {0}))
    {c : String}
    → b ≡ true
    → Leaves m q c act
    → Leaves m q c (when b act)
Leaves-when true act e l = l
Leaves-when false act e l = cc

-- The rules for the ways to build an action.
pub ruleset keeps_rules = (Keeps-bind, Keeps-pure, Keeps-gets, Keeps-when)
