-- ===== src/Worker/Shell.antt =====
-- `shlex.quote`, by which mediaorchard/worker/preflight.py and bootstrap.py put texts into scripts.
pub mod Words
use media_orchard.Prelude.{ℕ, String, Bool, true, ◌&&◌, ◌||◌, [], ◌==◌, leb, nat_eq, if◌then◌else◌}
use Prim.Native.Char.{code}
use Prim.Native.String

-- [A-Za-z0-9_@%+=:,./-]
unfoldable pub is_safe : ℕ → Bool
is_safe c =
    (leb b'a' c && leb c b'z')
    || (leb b'A' c && leb c b'Z')
    || (leb b'0' c && leb c b'9')
    || nat_eq c b'_'
    || nat_eq c b'@'
    || nat_eq c b'%'
    || nat_eq c b'+'
    || nat_eq c b'='
    || nat_eq c b':'
    || nat_eq c b','
    || nat_eq c b'.'
    || nat_eq c b'/'
    || nat_eq c b'-'

unfoldable pub all_safe : String → Bool
all_safe String.[] = true
all_safe (String.◌∷◌ c s) = is_safe (code c) && all_safe s

-- s.replace("'", "'\"'\"'") + "'"
unfoldable pub escape : String → String
escape String.[] = "'"
escape (String.◌∷◌ c s) =
    let rest = escape s in
    if nat_eq (code c) 39 then String.◌++◌ "'\"'\"'" rest else String.◌∷◌ c rest

-- shlex.quote
unfoldable pub quote : String → String
quote s = if s == "" then "''" else if all_safe s then s else String.◌++◌ "'" (escape s)
