-- ===== src/Shared/Paths/Safety.antt =====
-- What the path checks of paths.py let through.
use media_orchard.Prelude.{
  String, ◌≡◌, refl, sym, ap, ◌∙◌, ◌≢◌, ◌↔◌, inl, inr, Bool, true, false, ◌&&◌, ◌||◌, List, [], ◌∷◌,
  ◌++◌, map, arith, ◌==◌, eq_iff, eq_refl, Bool-cases, and-true, any, Any, here, there, not-Any-nil,
  Any-cons,
}
use media_orchard.Prelude.Results.{ok}
use media_orchard.Shared.Texts.{has_char, split_on_none}
use media_orchard.Shared.Paths.{
  AbsPath, FileSystem, path_eq, parents, is_within, find_root, resolve_allowlisted_path, path_name,
  build_job_output_dir, validate_shared_root,
}

pub path_eq_iff : (p q : AbsPath) → (path_eq p q ≡ true) ↔ (p ≡ q)
path_eq_iff [] [] = (λ h. refl, λ e. refl)
path_eq_iff [] (q ∷ qs) = (λ h. cc, λ e. cc)
path_eq_iff (p ∷ ps) [] = (λ h. cc, λ e. cc)
path_eq_iff (p ∷ ps) (q ∷ qs) = (
  λ h. ground (arith, eq_iff p q, path_eq_iff ps qs),
  λ e. ground (arith, eq_iff p q, path_eq_iff ps qs),
)

-- `p` is `root` or lies below it.
abbrev pub IsBelow : AbsPath → AbsPath → Type 0
IsBelow root p = (rest : AbsPath) × (p ≡ root ++ rest)

any-map :
    {A B : Type 0} (f : A → B) (t : B → Bool) (xs : List A)
    → any t (map f xs) ≡ any (λ x. t (f x)) xs
any-map f t [] = refl
any-map f t (x ∷ xs) = ap (λ b. t (f x) || b) (any-map f t xs)

any-false : {A : Type 0} (xs : List A) → any (λ _. false) xs ≡ false
any-false [] = refl
any-false (x ∷ xs) = any-false xs

is_within-cons :
    (r q : String) (rs qs : AbsPath) → is_within (r ∷ rs) (q ∷ qs) ≡ ((q == r) && is_within rs qs)
unfolding is_within parents
is_within-cons r q rs qs = elim (Bool-cases (q == r)) [
  | inl e ↦ rw (any-map _ (λ p. path_eq p (r ∷ rs))) (simp e)
  | inr e ↦ rw (any-map _ (λ p. path_eq p (r ∷ rs))) (simp (e, any-false))
]

is_within-IsBelow : (root p : AbsPath) → is_within root p ≡ true → IsBelow root p
is_within-IsBelow [] p h = (p, refl)
is_within-IsBelow (r ∷ rs) [] h = unfold is_within in cc
is_within-IsBelow (r ∷ rs) (q ∷ qs) h =
    let (same, below) = and-true (q == r) (is_within rs qs) (sym (is_within-cons r q rs qs) ∙ h) in
    let (rest, e) = is_within-IsBelow rs qs below in (rest, ground (arith, eq_iff q r))

IsBelow-is_within : (root rest : AbsPath) → is_within root (root ++ rest) ≡ true
IsBelow-is_within [] [] = unfold is_within in refl
IsBelow-is_within [] (q ∷ qs) = unfold is_within in refl
IsBelow-is_within (r ∷ rs) rest = rw (is_within-cons, eq_refl) (IsBelow-is_within rs rest)

later :
    (root p : AbsPath)
    → is_within root p ≡ false
    → (roots : List AbsPath) → Any (λ r. IsBelow r p) (root ∷ roots)
    → Any (λ r. IsBelow r p) roots
later root p out roots a = elim (Any-cons _ a) [
  | inl (rest, e) ↦ absurd (ground (arith, IsBelow-is_within root rest, ap (is_within root) e))
  | inr b ↦ b
]

find_root_lem :
    (p q : AbsPath) (roots : List AbsPath)
    → (find_root p roots ≡ ok q) ↔ ((p ≡ q) × Any (λ root. IsBelow root p) roots)
unfolding find_root
find_root_lem p q [] = (λ h. cc, λ (e, a). absurd (not-Any-nil _ a))
find_root_lem p q (root ∷ roots) = elim (Bool-cases (is_within root p)) [
  | inl e ↦ rw e (λ h. (ground arith, here (is_within-IsBelow root p e)), λ (g, a). rw g refl)
  | inr e ↦ rw e (
    λ h. let (g, a) = (find_root_lem p q roots).0 h in (g, there a),
    λ (g, a). (find_root_lem p q roots).1 (g, later root p e roots a),
  )
]

-- A path is let through, resolved, exactly if it lies in one of the resolved roots.
pub resolve_allowlisted_path_iff :
    (fs : FileSystem) (path : String) (roots : List String) (p : AbsPath)
    → (resolve_allowlisted_path fs path roots ≡ ok p) ↔ (
        (fs.resolve path ≡ p) × Any (λ root. IsBelow root (fs.resolve path)) (map fs.resolve roots))
unfolding resolve_allowlisted_path
resolve_allowlisted_path_iff fs path [] p = (λ h. cc, λ (e, a). absurd (not-Any-nil _ a))
resolve_allowlisted_path_iff fs path (root ∷ roots) p =
    find_root_lem (fs.resolve path) p (map fs.resolve (root ∷ roots))

-- A name that stays one entry of its directory.
pub record IsSegment (name : String) : Type 0 where
  pub not_empty : name ≢ ""
  pub not_here : name ≢ "."
  pub not_up : name ≢ ".."
  pub no_slash : has_char b'/' name ≡ false
  pub no_backslash : has_char 92 name ≡ false

path_name-segment :
    (name : String) → name ≢ "." → has_char b'/' name ≡ false → path_name name ≡ name
unfolding path_name
path_name-segment name n s = rw (split_on_none b'/' name s) (ground (arith, eq_iff name "."))

-- An output directory is built exactly for a job id that is one path segment, and is the entry of
-- that name directly below the resolved output root.
pub build_job_output_dir_iff :
    (fs : FileSystem) (root id : String) (p : AbsPath)
    → (build_job_output_dir fs root id ≡ ok p) ↔ (IsSegment id × (p ≡ fs.resolve root ++ (id ∷ [])))
unfolding build_job_output_dir
build_job_output_dir_iff fs root id p = (
  λ h. (
    record {
      not_empty = λ e. ground (arith, eq_iff id "");
      not_here = λ e. ground (arith, eq_iff id ".");
      not_up = λ e. ground (arith, eq_iff id "..");
      no_slash = ground arith;
      no_backslash = ground arith;
    },
    ground arith,
  ),
  λ (s, e). ground (
    arith,
    eq_iff id "",
    eq_iff id ".",
    eq_iff id "..",
    eq_iff (path_name id) id,
    path_name-segment id s.not_here s.no_slash,
    s.not_empty,
    s.not_here,
    s.not_up,
  ),
)

-- A Worker's root is accepted exactly if it exists, is a directory, and resolves to the
-- Controller's.
pub validate_shared_root_iff :
    (fs : FileSystem) (worker controller : String)
    → ((validate_shared_root fs worker controller).is_ok ≡ true) ↔ (
        (fs.exists (fs.resolve worker) ≡ true)
        × (fs.is_dir (fs.resolve worker) ≡ true)
        × (fs.resolve worker ≡ fs.resolve controller))
unfolding validate_shared_root
validate_shared_root_iff fs worker controller =
    let iff = path_eq_iff (fs.resolve worker) (fs.resolve controller) in
    (λ h. ground (arith, iff), λ h. ground (arith, iff))
