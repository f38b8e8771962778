-- ===== src/Cli/Launch/Configuration.antt =====
-- What the server makes of the environment that `run_controller` leaves it.
use media_orchard.Prelude.{String, ◌≡◌, refl, sym, [], ◌∷◌, All}
use media_orchard.Prelude.Results.{ok}
use media_orchard.Prelude.Int.{ℤ}
use media_orchard.Prelude.Dicts.{Dict, lookup}
use media_orchard.Shared.Paths.{FileSystem}
use media_orchard.Controller.Scheduler.Priorities.{Numerals, parse_node_priorities}
use media_orchard.Controller.Scheduler.Priorities.RoundTrip.{
  ReadsBack, IsPrintable, IsFresh, parse_node_priorities_lem,
}
use media_orchard.Controller.Startup.{create_app, imported_app}
use media_orchard.Cli.Launch.{ControllerRuntimeConfig, run_controller}
use media_orchard.Cli.Launch.Environ.{expected_variable, run_controller-expected_variable}

module _ (fs : FileSystem) (numerals : Numerals) (reads : ReadsBack numerals)
    (config : ControllerRuntimeConfig) (environ : Dict String) where
  set_priorities :
      (priorities : Dict ℤ)
      → priorities ≡ config.node_priorities
      → All (IsPrintable numerals) priorities
      → IsFresh [] priorities
      → parse_node_priorities numerals
          (lookup "MEDIAORCHARD_NODE_PRIORITIES" (run_controller fs numerals config environ).1)
        ≡ ok priorities
  unfolding expected_variable parse_node_priorities
  set_priorities [] e p f =
      rw
        (
          run_controller-expected_variable fs numerals config environ
              "MEDIAORCHARD_NODE_PRIORITIES",
          sym e,
        )
        refl
  set_priorities (entry ∷ d) e p f =
      rw
        (
          run_controller-expected_variable fs numerals config environ
              "MEDIAORCHARD_NODE_PRIORITIES",
          sym e,
        )
        (parse_node_priorities_lem numerals reads (entry ∷ d) p f)

  -- The server that `run_controller` starts is the one that the configuration describes, whatever the
  -- environment was: its database, the hash of the key, the resolved shared root, which the file system
  -- resolves to itself, and the priorities in their order, where they can be printed and read back.
  pub run_controller-configures :
      All (IsPrintable numerals) config.node_priorities
      → IsFresh [] config.node_priorities
      → fs.resolve (fs.render (fs.resolve config.shared_root)) ≡ fs.resolve config.shared_root
      → imported_app fs numerals (run_controller fs numerals config environ).1
        ≡ ok (
            create_app fs config.database_url config.api_key_hash config.shared_root
              config.node_priorities)
  unfolding imported_app create_app expected_variable
  run_controller-configures p f r =
      rw
        (
          set_priorities config.node_priorities refl p f,
          run_controller-expected_variable fs numerals config environ "MEDIAORCHARD_DATABASE_URL",
          run_controller-expected_variable fs numerals config environ "MEDIAORCHARD_API_KEY_HASH",
          run_controller-expected_variable fs numerals config environ "MEDIAORCHARD_SHARED_ROOT",
          r,
        )
        refl
