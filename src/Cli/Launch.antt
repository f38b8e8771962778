-- ===== src/Cli/Launch.antt =====
-- `run_controller` of mediaorchard/cli/runtime.py.
pub mod Environ
pub mod Configuration
use media_orchard.Prelude.{String, Option, [], ◌∷◌, ◌==◌, if◌then◌else◌, is_empty}
use media_orchard.Prelude.Int.{ℤ}
use media_orchard.Prelude.Dicts.{Dict, insert}
use media_orchard.Controller.Scheduler.Priorities.{Numerals, format_node_priorities}
use media_orchard.Shared.Paths.{FileSystem}

-- `shared_root` and `env_file` are paths as texts.
pub record ControllerRuntimeConfig : Type 0 where
  pub host : String
  pub port : ℤ
  pub database_url : String
  pub api_key_hash : String
  pub shared_root : String
  pub node_priorities : Dict ℤ
  pub log_level : String
  pub env_file : Option String

-- The arguments of `uvicorn_run`.
pub record Launch : Type 0 where
  pub app : String
  pub host : String
  pub port : ℤ
  pub log_level : String
  pub env_file : Option String

-- d.pop(key, None)
unfoldable pub remove : String → Dict String → Dict String
remove key [] = []
remove key ((k, v) ∷ d) = let rest = remove key d in if k == key then rest else (k, v) ∷ rest

-- os.environ when the server starts, and the server's arguments.
unfoldable pub run_controller :
    FileSystem → Numerals → ControllerRuntimeConfig → Dict String → Launch × Dict String
run_controller fs numerals config environ =
    let with_root = insert "MEDIAORCHARD_SHARED_ROOT" (fs.render (fs.resolve config.shared_root)) (
      insert "MEDIAORCHARD_API_KEY_HASH" config.api_key_hash
        (insert "MEDIAORCHARD_DATABASE_URL" config.database_url environ)) in
    let launch : Launch = record {
      app = "mediaorchard.controller.main:app";
      host = config.host;
      port = config.port;
      log_level = config.log_level;
      env_file = config.env_file;
    } in
    (
      launch,
      if is_empty config.node_priorities
          then remove "MEDIAORCHARD_NODE_PRIORITIES" with_root
          else insert "MEDIAORCHARD_NODE_PRIORITIES"
              (format_node_priorities numerals config.node_priorities) with_root,
    )
