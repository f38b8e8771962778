-- ===== src/Prelude/Json.antt =====
-- JSON values as Python holds them: `dict[str, Any]` and `Any`.
use Prim.Native.String.{String}
use mathlib.Core.Bool.{Bool, false, ◌||◌}
use mathlib.Core.Option.{Option, none, some}
use text.Mathlib.Text.{◌==◌}
use media_orchard.Prelude.Int.{ℤ}
use media_orchard.Prelude.Tests.{if◌then◌else◌}

mutual
  pub data Json (F : Type 0) : Type 0 where
    null : Json F
    bool : Bool → Json F
    int : ℤ → Json F
    float : F → Json F
    str : String → Json F
    arr : Items F → Json F
    obj : Fields F → Json F

  pub data Items (F : Type 0) : Type 0 where
    nil : Items F
    cons : Json F → Items F → Items F

  pub data Fields (F : Type 0) : Type 0 where
    end : Fields F
    field : String → Json F → Fields F → Fields F

-- d.get(key)
abbrev pub get : {F : Type 0} → String → Fields F → Option (Json F)
get k end = none
get k (field j v fs) = if j == k then some v else get k fs

-- d[key] = v: in place, or as the last key
abbrev pub put : {F : Type 0} → String → Json F → Fields F → Fields F
put k v end = field k v end
put k v (field j w fs) = if j == k then field j v fs else field j w (put k v fs)

abbrev pub has_key : {F : Type 0} → String → Fields F → Bool
has_key k end = false
has_key k (field j v fs) = j == k || has_key k fs

-- text in [item, …]
abbrev pub has_item : {F : Type 0} → String → Items F → Bool
has_item s nil = false
has_item s (cons (str t) vs) = t == s || has_item s vs
has_item s (cons _ vs) = has_item s vs
