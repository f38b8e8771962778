-- ===== src/Examples/SharedRuns.antt =====
-- Paths and keys on concrete inputs.
use media_orchard.Prelude.{◌≡◌, ◌↔◌, true, [], ◌∷◌, ◌++◌, map, Any}
use media_orchard.Prelude.Results.{ok}
use media_orchard.Shared.Paths.{
  resolve_allowlisted_path, build_job_output_dir, validate_shared_root,
}
use media_orchard.Shared.Paths.Safety.{
  IsBelow, IsSegment, resolve_allowlisted_path_iff, build_job_output_dir_iff,
  validate_shared_root_iff,
}
use media_orchard.Examples.Fixtures.{local_fs}

resolve_allowlisted_path_iff_example :
    (resolve_allowlisted_path local_fs "/srv/media/in.mp4" ("/srv/media" ∷ [])
      ≡ ok ("srv" ∷ "media" ∷ "in.mp4" ∷ []))
    ↔ ((local_fs.resolve "/srv/media/in.mp4" ≡ "srv" ∷ "media" ∷ "in.mp4" ∷ [])
        × Any
            (λ root. IsBelow root (local_fs.resolve "/srv/media/in.mp4"))
            (map local_fs.resolve ("/srv/media" ∷ [])))
resolve_allowlisted_path_iff_example =
    resolve_allowlisted_path_iff local_fs "/srv/media/in.mp4" ("/srv/media" ∷ [])
      ("srv" ∷ "media" ∷ "in.mp4" ∷ [])

build_job_output_dir_iff_example :
    (build_job_output_dir local_fs "/srv/media/output" "job_1"
      ≡ ok ("srv" ∷ "media" ∷ "output" ∷ "job_1" ∷ []))
    ↔ (IsSegment "job_1"
        × ("srv" ∷ "media" ∷ "output" ∷ "job_1" ∷ []
            ≡ local_fs.resolve "/srv/media/output" ++ ("job_1" ∷ [])))
build_job_output_dir_iff_example =
    build_job_output_dir_iff local_fs "/srv/media/output" "job_1"
      ("srv" ∷ "media" ∷ "output" ∷ "job_1" ∷ [])

validate_shared_root_iff_example :
    ((validate_shared_root local_fs "/srv/media/" "/srv/media").is_ok ≡ true) ↔ (
      (local_fs.exists (local_fs.resolve "/srv/media/") ≡ true)
      × (local_fs.is_dir (local_fs.resolve "/srv/media/") ≡ true)
      × (local_fs.resolve "/srv/media/" ≡ local_fs.resolve "/srv/media"))
validate_shared_root_iff_example = validate_shared_root_iff local_fs "/srv/media/" "/srv/media"
