-- ===== src/Worker/Machine.antt =====
-- What the Worker's tools and pipelines ask of the operating system and of Python's own library:
-- files, commands, and the texts of values.
pub mod Frames
pub mod Success
use media_orchard.Prelude.{ℕ, String, ◌≡◌, ◌≢◌, Bool, Option, some, List, [], ◌∷◌}
use media_orchard.Prelude.Results.{Result, ok}
use media_orchard.Prelude.Actions.{Action, ◌>>◌}
use media_orchard.Prelude.Int.{ℤ}
use media_orchard.Prelude.Json.{Json, Fields}
use media_orchard.Shared.Paths.{path_name}
use media_orchard.Shared.Texts.{concat}

-- Path(text), and `path / name`
pub data FilePath : Type 0 where
  base : String → FilePath
  ◌/◌ : FilePath → String → FilePath

infixl 60 ◌/◌
abbrev pub root : FilePath → String
root (base text) = text
root (dir / name) = root dir

-- path.parent, of a path `directory / name`
abbrev pub parent : FilePath → FilePath
parent (base text) = base text
parent (dir / name) = dir

-- path.name
unfoldable pub name_of : FilePath → String
name_of (base text) = path_name text
name_of (dir / name) = name

-- The `output` of a command that ran out of time: `None`, a text or bytes.
pub data Stream : Type 0 where
  absent : Stream
  chars : String → Stream
  octets : List ℕ → Stream

-- How a command ends: a return code with both outputs, or `TimeoutExpired`.
pub data Outcome : Type 0 where
  exited : ℤ → String → String → Outcome
  timed_out : Stream → Stream → Outcome

-- `S` is the state of the computer. An `OSError` of `mkdir` or `write` is its text.
pub record Machine (F : Type 0) (S : Type 0) : Type 0 where
  -- path.mkdir(parents=True, exist_ok=True)
  pub mkdir : FilePath → S → Result String (Unit {0}) × S
  -- path.write_text(content)
  pub write : FilePath → String → S → Result String (Unit {0}) × S
  -- The content of `path`, when it is a file.
  pub read : FilePath → S → Option String
  -- path.exists()
  pub exists : FilePath → S → Bool
  -- path.iterdir(), and none when it is no directory.
  pub entries : FilePath → S → Option (List FilePath)
  -- subprocess.run with a timeout in seconds.
  pub run : List String → ℤ → S → Outcome × S
  -- path.expanduser().resolve(strict=False)
  pub resolve : FilePath → FilePath
  -- str(path)
  pub render : FilePath → String
  -- json.dumps(payload, indent=2, sort_keys=True)
  pub dumps : Fields F → String
  -- json.loads(text)
  pub loads : String → Result String (Json F)
  -- data.decode(errors="replace")
  pub decode : List ℕ → String
  -- int(round(seconds * 1000))
  pub milliseconds : F → Result String ℤ
  -- str(value)
  pub text_of : Json F → String
  pub int_text : ℤ → String
  -- f"{number:0{width}}"
  pub pad : ℕ → ℤ → String
  -- text.strip()
  pub strip : String → String
  -- The text of the error of `read_text` on a path that is no file.
  pub no_file : FilePath → String
  -- The text of the error of a value that has not the type that an operation needs.
  pub bad_type : Json F → String

-- What the operating system promises of files, where the names in a path are names of files and no
-- two paths below one directory are links to one file: what was written is read, and nothing else
-- below that directory has changed.
pub record KeepsFiles {F S : Type 0} (m : Machine F S) : Type 0 where
  pub read_write :
      (p : FilePath) (c : String) (s : S)
      → (m.write p c s).0 ≡ ok tt
      → m.read p (m.write p c s).1 ≡ some c
  pub read_write_other :
      (p q : FilePath) (c : String) (s : S)
      → root p ≡ root q
      → p ≢ q
      → m.read q (m.write p c s).1 ≡ m.read q s
  pub read_mkdir : (p q : FilePath) (s : S) → m.read q (m.mkdir p s).1 ≡ m.read q s

module _ {F S : Type 0} (m : Machine F S) where
  -- _write_text, and the same for bytes; every path that the code passes is `directory / name`
  unfoldable pub write_text : FilePath → String → Action S (Unit {0})
  write_text p c = m.mkdir (parent p) >> m.write p c

  -- _stream_to_text, and _normalize_timeout_stream of the executor
  abbrev pub stream_text : Stream → String
  stream_text absent = ""
  stream_text (chars text) = text
  stream_text (octets bytes) = m.decode bytes

  -- _write_json
  unfoldable pub write_json : FilePath → Fields F → Action S (Unit {0})
  unfolding write_text
  write_json p payload = write_text p (concat (m.dumps payload ∷ "\n" ∷ []))
