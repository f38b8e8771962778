-- ===== src/Worker/Preflight/Scripts.antt =====
-- What a shell makes of the scripts of mediaorchard/worker/preflight.py.
use media_orchard.Prelude.{
  String, ◌≡◌, refl, ap, subst, inl, inr, true, false, some, List, [], ◌∷◌, Bool-cases,
}
use Prim.Native.String
use text.Mathlib.TextLemmas.{cons-append, append-nil}
use media_orchard.Worker.Shell.{is_safe, quote}
use media_orchard.Worker.Shell.Words.{read_word, bare, EndsWord, read_word-quote}
use media_orchard.Worker.Preflight.{
  Host, WorkerPreflightConfig, is_local_target, build_command_argv, root_script,
}

-- A command that makes `sh` run this script: here as an argument of its own, and on another host as
-- the last of the words that ssh joins, which the shell there reads.
pub data RunsScript (target : String) (script : String) : List String → Type 0 where
  on_this_host :
      is_local_target target ≡ true → RunsScript target script ("sh" ∷ "-lc" ∷ script ∷ [])
  on_other_host :
      (word : String)
      → is_local_target target ≡ false
      → read_word bare word ≡ some (script, "")
      → RunsScript target script (
          "ssh" ∷ "-o" ∷ "BatchMode=yes" ∷ "-o" ∷ "ConnectTimeout=5" ∷ target ∷ "sh" ∷ "-lc" ∷ word
          ∷ [])

nil-EndsWord : EndsWord ""
unfolding EndsWord read_word
nil-EndsWord = refl

read_word-whole : (s : String) → read_word bare (quote s) ≡ some (s, "")
read_word-whole s =
    subst (λ x. read_word bare x ≡ some (s, "")) (append-nil (quote s))
      (read_word-quote s "" nil-EndsWord)

-- For any target and script, the command makes `sh` run exactly the script, on this host or, quoted
-- once, on another.
pub build_command_argv-RunsScript :
    (target script : String) → RunsScript target script (build_command_argv target script)
unfolding build_command_argv
build_command_argv-RunsScript target script = elim (Bool-cases (is_local_target target)) [
  | inl h ↦ rw h (on_this_host h)
  | inr h ↦ rw h (on_other_host _ h (read_word-whole script))
]

-- A script that tests a directory and prints it.
pub record TestsRoot (root script : String) : Type 0 where
  pub first : String
  pub second : String
  pub begins : script ≡ String.◌++◌ "test -d " first
  pub tested : read_word bare first ≡ some (root, String.◌++◌ " && printf '%s\\n' " second)
  pub printed : read_word bare second ≡ some (root, "")

space-EndsWord : (s : String) → EndsWord (String.◌++◌ " && printf '%s\\n' " s)
unfolding EndsWord read_word is_safe
space-EndsWord s = rw (cons-append " " "&& printf '%s\\n' " s) refl

-- Whatever the shared root is called, the script tests that one directory and prints its name.
pub root_script-TestsRoot :
    (host : Host) (config : WorkerPreflightConfig) (root : String)
    → TestsRoot root (root_script host config (quote root))
root_script-TestsRoot host config root = record {
  first = String.◌++◌ (quote root) (String.◌++◌ " && printf '%s\\n' " (quote root));
  second = quote root;
  begins =
      ap
        (λ x.
          String.◌++◌ "test -d " (String.◌++◌ (quote root) (String.◌++◌ " && printf '%s\\n' " x)))
        (append-nil (quote root));
  tested = read_word-quote root _ (space-EndsWord (quote root));
  printed = read_word-whole root;
}
