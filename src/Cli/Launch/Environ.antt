-- ===== src/Cli/Launch/Environ.antt =====
-- The environment in which the Controller's server starts.
use media_orchard.Prelude.{
  String, ◌≡◌, refl, inl, inr, Option, none, some, [], ◌∷◌, arith, ◌==◌, eq_iff, if◌then◌else◌,
  Bool-cases, is_empty,
}
use media_orchard.Prelude.Dicts.{Dict, lookup, lookup-insert}
use media_orchard.Shared.Paths.{FileSystem}
use media_orchard.Controller.Scheduler.Priorities.{Numerals, format_node_priorities}
use media_orchard.Cli.Launch.{ControllerRuntimeConfig, remove, run_controller}

-- What a variable is set to: the four of the program by the configuration, where no priorities mean
-- no variable, and every other as it was.
unfoldable pub expected_variable :
    FileSystem → Numerals → ControllerRuntimeConfig → Dict String → String → Option String
expected_variable fs numerals config environ name =
    if "MEDIAORCHARD_NODE_PRIORITIES" == name
    then (if is_empty config.node_priorities
        then none
        else some (format_node_priorities numerals config.node_priorities))
    else if "MEDIAORCHARD_SHARED_ROOT" == name
    then some (fs.render (fs.resolve config.shared_root))
    else if "MEDIAORCHARD_API_KEY_HASH" == name
    then some config.api_key_hash
    else if "MEDIAORCHARD_DATABASE_URL" == name
    then some config.database_url
    else lookup name environ

lookup-remove :
    (k j : String) (d : Dict String) → lookup j (remove k d) ≡ (if k == j then none else lookup j d)
unfolding lookup remove
lookup-remove k j [] = ground (arith)
lookup-remove k j ((i, v) ∷ d) =
    ground (arith, eq_iff k j, eq_iff i k, eq_iff i j, lookup-remove k j d)

-- The server finds its four variables as the configuration says, without priorities no variable for
-- them, and every other variable as it was.
pub run_controller-expected_variable :
    (fs : FileSystem) (numerals : Numerals) (config : ControllerRuntimeConfig)
    (environ : Dict String) (name : String)
    → lookup name (run_controller fs numerals config environ).1
      ≡ expected_variable fs numerals config environ name
unfolding run_controller expected_variable
run_controller-expected_variable fs numerals config environ name =
    elim (Bool-cases (is_empty config.node_priorities)) [
      | inl h ↦
          rw
            (
              h,
              lookup-remove "MEDIAORCHARD_NODE_PRIORITIES" name _,
              lookup-insert "MEDIAORCHARD_SHARED_ROOT" name _ _,
              lookup-insert "MEDIAORCHARD_API_KEY_HASH" name _ _,
              lookup-insert "MEDIAORCHARD_DATABASE_URL" name _ _,
            )
            refl
      | inr h ↦
          rw
            (
              h,
              lookup-insert "MEDIAORCHARD_NODE_PRIORITIES" name _ _,
              lookup-insert "MEDIAORCHARD_SHARED_ROOT" name _ _,
              lookup-insert "MEDIAORCHARD_API_KEY_HASH" name _ _,
              lookup-insert "MEDIAORCHARD_DATABASE_URL" name _ _,
            )
            refl
    ]
