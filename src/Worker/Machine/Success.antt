-- ===== src/Worker/Machine/Success.antt =====
-- Actions that raise nothing on a computer whose disk has room.
use media_orchard.Prelude.{String, ◌≡◌, refl, ◌≢◌, Bool, true, false}
use media_orchard.Prelude.Results.{Result, ok, err}
use media_orchard.Prelude.Actions.{Action, pure, gets, when, continue, ◌>>=◌}
use media_orchard.Worker.Machine.{Machine, FilePath, parent, write_text}

-- No directory and no file fails to be written.
pub record NeverFails {F S : Type 0} (m : Machine F S) : Type 0 where
  pub mkdir_ok : (p : FilePath) (s : S) → (m.mkdir p s).0 ≡ ok tt
  pub write_ok : (p : FilePath) (c : String) (s : S) → (m.write p c s).0 ≡ ok tt

-- The action returns, in every state.
pub record Succeeds {S A : Type 0} (act : Action S A) : Type 0 where
  pub at : (s : S) → (a : A) × ((act s).0 ≡ ok a)

err-not-ok : {A : Type 0} (x : String) (a : A) → ◌≢◌ {A = Result String A} (err x) (ok a)
err-not-ok x a e = cc

module _ {S : Type 0} where
  pub Succeeds-pure : {A : Type 0} (a : A) → Succeeds {S = S} (pure a)
  Succeeds-pure a = record { at = λ s. (a, refl) }

  pub Succeeds-gets : {A : Type 0} (f : S → A) → Succeeds (gets f)
  Succeeds-gets f = record { at = λ s. (f s, refl) }

  pub Succeeds-when : (b : Bool) (act : Action S (Unit {0})) → Succeeds act → Succeeds (when b act)
  Succeeds-when true act l = l
  Succeeds-when false act l = record { at = λ s. (tt, refl) }

  Succeeds-continue :
      {A B : Type 0} (r : Result String A) (rest : A → Action S B) (a : A)
      → r ≡ ok a
      → ((a : A) → Succeeds (rest a))
      → (s : S) → (b : B) × ((continue r rest s).0 ≡ ok b)
  Succeeds-continue (ok x) rest a e l s = (l x).at s
  Succeeds-continue (err x) rest a e l s = elim (err-not-ok x a e) [ ]

  pub Succeeds-bind :
      {A B : Type 0} (act : Action S A) (rest : A → Action S B)
      → Succeeds act
      → ((a : A) → Succeeds (rest a))
      → Succeeds (act >>= rest)
  Succeeds-bind act rest k l = record {
    at = λ s. let (a, e) = k.at s in Succeeds-continue (act s).0 rest a e l (act s).1;
  }

-- The rules for the ways to build an action.
pub ruleset succeeds_rules = (Succeeds-bind, Succeeds-pure, Succeeds-gets, Succeeds-when)

module _ {F S : Type 0} {m : Machine F S} (fine : NeverFails m) where
  pub Succeeds-mkdir : (p : FilePath) → Succeeds (m.mkdir p)
  Succeeds-mkdir p = record { at = λ s. (tt, fine.mkdir_ok p s) }

  pub Succeeds-write_text : (p : FilePath) (c : String) → Succeeds (write_text m p c)
  unfolding write_text
  Succeeds-write_text p c =
      Succeeds-bind (m.mkdir (parent p)) _ (Succeeds-mkdir (parent p))
        (λ a. record { at = λ s. (tt, fine.write_ok p c s) })
