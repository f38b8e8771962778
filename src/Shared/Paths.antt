-- ===== src/Shared/Paths.antt =====
-- mediaorchard/shared/paths.py
pub mod Safety
use media_orchard.Prelude.{
  String, Bool, true, false, not, ◌&&◌, ◌||◌, List, [], ◌∷◌, ◌++◌, map, ◌==◌, if◌then◌else◌, any,
  is_empty,
}
use media_orchard.Prelude.Results.{Result, ok, err, ◌>>=◌, ◌>>◌, require}
use media_orchard.Shared.Texts.{has_char, split_on}

-- An absolute path: its parts below the root.
abbrev pub AbsPath : Type 0
AbsPath = List String

-- What `pathlib` asks the operating system: `Path(text).expanduser().resolve(strict=False)`,
-- `str(path)`, `path.exists()` and `path.is_dir()`.
pub record FileSystem : Type 0 where
  pub resolve : String → AbsPath
  pub render : AbsPath → String
  pub exists : AbsPath → Bool
  pub is_dir : AbsPath → Bool

-- The messages of `PathSecurityError`.
pub data PathError : Type 0 where
  no_roots : PathError
  outside_roots : AbsPath → PathError
  empty_job_id separator_in_job_id : PathError

abbrev pub path_eq : AbsPath → AbsPath → Bool
path_eq [] [] = true
path_eq [] (q ∷ qs) = false
path_eq (p ∷ ps) [] = false
path_eq (p ∷ ps) (q ∷ qs) = p == q && path_eq ps qs

-- path.parents: all the proper prefixes
unfoldable pub parents : AbsPath → List AbsPath
parents [] = []
parents (p ∷ ps) = [] ∷ map (λ q. p ∷ q) (parents ps)

-- candidate == root or root in candidate.parents
unfoldable pub is_within : AbsPath → AbsPath → Bool
unfolding parents
is_within root candidate = path_eq candidate root || any (λ p. path_eq p root) (parents candidate)

unfoldable pub find_root : AbsPath → List AbsPath → Result PathError AbsPath
unfolding is_within
find_root candidate [] = err (outside_roots candidate)
find_root candidate (root ∷ roots) =
    let rest = find_root candidate roots in if is_within root candidate then ok candidate else rest

unfoldable pub resolve_allowlisted_path :
    FileSystem → String → List String → Result PathError AbsPath
unfolding find_root
resolve_allowlisted_path fs path allowed_roots =
    let candidate = fs.resolve path in
    let roots = map fs.resolve allowed_roots in
    if is_empty roots then err no_roots else find_root candidate roots

-- The last of the parts that `Path(text)` keeps, or "".
unfoldable pub last_part : List String → String
last_part [] = ""
last_part (part ∷ parts) =
    let rest = last_part parts in
    if not (rest == "") then rest else if part == "." then "" else part

-- Path(text).name
unfoldable pub path_name : String → String
unfolding last_part
path_name text = last_part (split_on b'/' text)

unfoldable pub build_job_output_dir : FileSystem → String → String → Result PathError AbsPath
build_job_output_dir fs output_root job_id = do
  require (not (job_id == "" || (job_id == "." || job_id == ".."))) empty_job_id
  require (path_name job_id == job_id && not (has_char b'/' job_id) && not (has_char 92 job_id))
      separator_in_job_id
  ok (fs.resolve output_root ++ (job_id ∷ []))

-- `reason`
pub data RootReason : Type 0 where
  shared_root_missing shared_root_not_directory shared_root_differs shared_root_ok : RootReason

pub record SharedRootValidation : Type 0 where
  pub is_ok : Bool
  pub reason : RootReason
  pub worker_root : AbsPath
  pub controller_root : AbsPath

unfoldable pub validate_shared_root : FileSystem → String → String → SharedRootValidation
validate_shared_root fs worker_root controller_root =
    let worker = fs.resolve worker_root in
    let controller = fs.resolve controller_root in
    let result = λ (b : Bool) (why : RootReason).
      let v : SharedRootValidation = record {
        is_ok = b;
        reason = why;
        worker_root = worker;
        controller_root = controller;
      } in
      v in
    if not (fs.exists worker)
    then result false shared_root_missing
    else if not (fs.is_dir worker)
    then result false shared_root_not_directory
    else if not (path_eq worker controller)
    then result false shared_root_differs
    else result true shared_root_ok
