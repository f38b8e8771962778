-- ===== src/Controller/Startup.antt =====
-- The start of mediaorchard/controller/main.py: `create_app` before its routes, and the module's
-- `app`.
use media_orchard.Prelude.{String, Option, none, some}
use media_orchard.Prelude.Results.{Result, ok, ◌>>=◌}
use media_orchard.Prelude.Dicts.{Dict, lookup}
use media_orchard.Shared.Paths.{FileSystem}
use media_orchard.Controller.Scheduler.Policies.{Priorities}
use media_orchard.Controller.Scheduler.Priorities.{Numerals, parse_node_priorities}
use media_orchard.Controller.Api.{App}

-- The URL of the engine, and `app.state`.
pub record Service : Type 0 where
  pub database_url : String
  pub app : App

-- create_app, with the path of `shared_root` as a text.
unfoldable pub create_app : FileSystem → String → String → String → Priorities → Service
create_app fs database_url api_key_hash shared_root node_priorities = record {
  database_url = database_url;
  app = record {
    api_key_hash = api_key_hash;
    shared_root = fs.resolve shared_root;
    node_priorities = node_priorities;
  };
}

-- os.getenv(name, default)
abbrev or_default : Option String → String → String
or_default none default = default
or_default (some value) default = value

-- The module's `app`; `environ` is os.environ, and an error is the ValueError of the import.
unfoldable pub imported_app : FileSystem → Numerals → Dict String → Result String Service
unfolding create_app
imported_app fs numerals environ =
    parse_node_priorities numerals (lookup "MEDIAORCHARD_NODE_PRIORITIES" environ)
    >>= λ node_priorities. ok (
        create_app fs
          (or_default (lookup "MEDIAORCHARD_DATABASE_URL" environ) "sqlite:///mediaorchard.db")
          (or_default (lookup "MEDIAORCHARD_API_KEY_HASH" environ) "__unset__")
          (or_default (lookup "MEDIAORCHARD_SHARED_ROOT" environ) "/Volumes/MediaOrchard")
          node_priorities)
