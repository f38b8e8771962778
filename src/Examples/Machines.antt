-- ===== src/Examples/Machines.antt =====
-- A computer whose files are a table, and whose commands always make the same two files.
use media_orchard.Prelude.{
  String, ◌≡◌, refl, ap, ◌≢◌, inl, inr, Bool, true, false, ◌&&◌, Option, none, some, [], ◌∷◌, ◌==◌,
  eq_iff, eq_refl, if◌then◌else◌, Bool-cases, and-true,
}
use media_orchard.Prelude.Results.{ok}
use media_orchard.Prelude.Int.{ℤ, pos}
use media_orchard.Prelude.Json.{str, obj, end, field}
use media_orchard.Worker.Machine.Success.{NeverFails}
use media_orchard.Worker.Machine.{Machine, KeepsFiles, FilePath, base, ◌/◌, root, exited}

abbrev pub same_path : FilePath → FilePath → Bool
same_path (base a) (base b) = a == b
same_path (base a) (p / n) = false
same_path (p / n) (base b) = false
same_path (p / a) (q / b) = a == b && same_path p q

same_path_refl : (p : FilePath) → same_path p p ≡ true
same_path_refl (base a) = eq_refl a
same_path_refl (p / n) = rw (eq_refl n, same_path_refl p) refl

same_path_eq : (p q : FilePath) → same_path p q ≡ true → p ≡ q
same_path_eq (base a) (base b) h = ap base ((eq_iff a b).0 h)
same_path_eq (base a) (p / n) h = cc
same_path_eq (p / n) (base b) h = cc
same_path_eq (p / a) (q / b) h =
    let (e, more) = and-true (a == b) _ h in cc (same_path_eq p q more, (eq_iff a b).0 e)

abbrev pub Files : Type 0
Files = FilePath → Option String

abbrev pub put_file : FilePath → String → Files → Files
put_file p c files q = if same_path p q then some c else files q

abbrev pub no_files : Files
no_files q = none

-- The machine: ffmpeg and Whisper are taken to have written their files after any command.
abbrev pub desk : Machine ℤ Files
desk = record {
  mkdir = λ p s. (ok tt, s);
  write = λ p c s. (ok tt, put_file p c s);
  read = λ p s. s p;
  exists = λ p s. true;
  entries = λ p s. some ((p / "ffprobe.stdout.log") ∷ []);
  run = λ argv timeout s. (
    exited (pos 0) "meta" "",
    put_file (base "/srv/work" / "whisper_result.json") "result"
        (put_file (base "/srv/out" / "audio.wav") "RIFF" s),
  );
  resolve = λ p. p;
  render = λ p. root p;
  dumps = λ payload. "{}";
  loads = λ text. ok (obj (field "text" (str "hello") end));
  decode = λ bytes. "";
  milliseconds = λ x. ok (pos 0);
  text_of = λ value. "";
  int_text = λ n. "0";
  pad = λ width n. "00";
  strip = λ text. text;
  no_file = λ p. "no file";
  bad_type = λ value. "bad type";
}

kept : (p q : FilePath) (c : String) (s : Files) → p ≢ q → put_file p c s q ≡ s q
kept p q c s d = elim (Bool-cases (same_path p q)) [
  | inl e ↦ elim (d (same_path_eq p q e)) [ ]
  | inr e ↦ rw e refl
]

pub desk-KeepsFiles : KeepsFiles desk
desk-KeepsFiles = record {
  read_write = λ p c s _. rw (same_path_refl p) refl;
  read_write_other = λ p q c s _ d. kept p q c s d;
  read_mkdir = λ p q s. refl;
}

pub desk-NeverFails : NeverFails desk
desk-NeverFails = record { mkdir_ok = λ p s. refl; write_ok = λ p c s. refl }
