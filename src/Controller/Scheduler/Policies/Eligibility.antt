-- ===== src/Controller/Scheduler/Policies/Eligibility.antt =====
-- `is_node_eligible` against the list of hard filters in plan.md.
use media_orchard.Prelude.{
  ◌+◌, ◌*◌, ◌≤◌, ◌≡◌, ◌≢◌, ◌↔◌, ◌⊎◌, inl, inr, Bool, true, false, some, arith, eq_iff, Bool-cases,
  Option-cases,
}
use media_orchard.Prelude.Results.{Result, ok, err, >>=-eq-ok}
use media_orchard.Prelude.Int.{pos, ltb_ℤ, leb_ℤ}
use media_orchard.Prelude.Floats.{Floats}
use media_orchard.Shared.Enums.{online}
use media_orchard.Shared.DateTimes.{DateTime, instant}
use media_orchard.Controller.Models.{Node, Step}
use media_orchard.Controller.Scheduler.Policies.{
  SchedulerConfig, Reason, eligible, node_offline, heartbeat_stale, shared_root_mismatch,
  cpu_too_high, memory_too_high, disk_too_low, thermal_blocked, node_avoided,
  battery_runtime_blocked, whisper_concurrency_full, ffmpeg_concurrency_full, EligibilityResult,
  Raised, reject, is_whisper_step, is_ffmpeg_step, is_avoided, estimated_runtime_minutes,
  heartbeat_expired, battery_blocked, run_checks, is_node_eligible,
}

abbrev pub accepted : Result Raised EligibilityResult
accepted = ok (record { is_eligible = true; reason = eligible })

-- The checks returned, and returned `True`.
abbrev pub is_pass : Result Raised EligibilityResult → Bool
is_pass (ok r) = r.is_eligible
is_pass (err e) = false

abbrev pub rejected : Reason → Result Raised EligibilityResult
rejected why = ok (record { is_eligible = false; reason = why })

module _ {F : Type 0} (fl : Floats F) where
  -- The node's last heartbeat is at most the timeout old.
  abbrev IsFresh : Node F → SchedulerConfig F → DateTime → Type 0
  IsFresh node config now =
      (last : DateTime) × (node.last_heartbeat_at ≡ some last)
      × (instant now ≤ instant last + config.heartbeat_timeout_seconds * 1_000_000)

  -- On battery, the estimated runtime is within the limit.
  abbrev FitsBattery : Step F → Node F → SchedulerConfig F → Type 0
  FitsBattery step node config =
      (node.on_battery ≡ false)
      ⊎ ((minutes : F) × (estimated_runtime_minutes fl step ≡ ok minutes)
          × (fl.lt (fl.of_int (pos config.max_runtime_on_battery_minutes)) minutes ≡ false))

  pub record IsEligible (step : Step F) (node : Node F) (config : SchedulerConfig F)
      (now : DateTime) : Type 0 where
    pub is_online : node.status ≡ online
    pub is_fresh : IsFresh node config now
    pub same_root : node.shared_root ≡ config.shared_root
    pub cpu_ok : fl.lt config.max_cpu_percent node.cpu_percent ≡ false
    pub memory_ok : fl.lt config.max_memory_percent node.memory_percent ≡ false
    pub disk_ok : fl.lt node.free_disk_gb config.min_free_disk_gb ≡ false
    pub not_serious : node.thermal_state ≢ "serious"
    pub not_critical : node.thermal_state ≢ "critical"
    pub not_avoided : is_avoided step node.id ≡ ok false
    pub fits_battery : FitsBattery step node config
    pub whisper_room :
        is_whisper_step step ≡ true
        → ltb_ℤ (pos node.active_whisper_jobs) node.max_whisper_jobs ≡ true
    pub ffmpeg_room :
        is_ffmpeg_step step ≡ true → ltb_ℤ (pos node.active_ffmpeg_jobs) node.max_ffmpeg_jobs ≡ true

  IsEligible-accepted :
      (step : Step F) (node : Node F) (config : SchedulerConfig F) (now : DateTime)
      → IsEligible step node config now
      → is_node_eligible fl step node config now ≡ accepted
  unfolding is_node_eligible heartbeat_expired battery_blocked
  IsEligible-accepted step node config now h = ground (
    arith,
    eq_iff node.shared_root config.shared_root,
    eq_iff "serious" node.thermal_state,
    eq_iff "critical" node.thermal_state,
  )

  heartbeat_expired-IsFresh :
      (node : Node F) (config : SchedulerConfig F) (now : DateTime)
      → heartbeat_expired fl node config now ≡ false
      → IsFresh node config now
  unfolding heartbeat_expired
  heartbeat_expired-IsFresh node config now h = elim (Option-cases node.last_heartbeat_at) [
    | inl e ↦ absurd (ground arith)
    | inr (last, e) ↦ (last, e, ground arith)
  ]

  battery_blocked-FitsBattery :
      (step : Step F) (node : Node F) (config : SchedulerConfig F)
      → battery_blocked fl step node config ≡ ok false
      → FitsBattery step node config
  unfolding battery_blocked
  battery_blocked-FitsBattery step node config h = elim (Bool-cases node.on_battery) [
    | inl e ↦
        let (minutes, r, l) = >>=-eq-ok (estimated_runtime_minutes fl step) _ (rw e at h) in
        inr (minutes, r, ground arith)
    | inr e ↦ inl e
  ]

  accepted-checks :
      (step : Step F) (node : Node F) (config : SchedulerConfig F) (now : DateTime)
      → is_node_eligible fl step node config now ≡ accepted
      → run_checks fl step node config now ≡ ok tt
  unfolding is_node_eligible
  accepted-checks step node config now h = ground arith

  accepted-IsEligible :
      (step : Step F) (node : Node F) (config : SchedulerConfig F) (now : DateTime)
      → run_checks fl step node config now ≡ ok tt
      → IsEligible step node config now
  unfolding run_checks
  accepted-IsEligible step node config now h = record {
    is_online = ground arith;
    is_fresh = heartbeat_expired-IsFresh node config now (ground arith);
    same_root = ground (arith, eq_iff node.shared_root config.shared_root);
    cpu_ok = ground arith;
    memory_ok = ground arith;
    disk_ok = ground arith;
    not_serious = λ e. ground (arith, eq_iff "serious" node.thermal_state);
    not_critical = λ e. ground (arith, eq_iff "critical" node.thermal_state);
    not_avoided = ground arith;
    fits_battery = battery_blocked-FitsBattery step node config (ground arith);
    whisper_room = λ w. ground arith;
    ffmpeg_room = λ w. ground arith;
  }

  -- A node passes the checks exactly when it meets every hard filter.
  pub is_node_eligible_iff :
      (step : Step F) (node : Node F) (config : SchedulerConfig F) (now : DateTime)
      → (is_node_eligible fl step node config now ≡ accepted) ↔ IsEligible step node config now
  is_node_eligible_iff step node config now = (
    λ h. accepted-IsEligible step node config now (accepted-checks step node config now h),
    IsEligible-accepted step node config now,
  )

  -- The filter that a reason names is not met.
  abbrev pub Fails : Step F → Node F → SchedulerConfig F → DateTime → Reason → Type 0
  Fails step node config now eligible = ⊥
  Fails step node config now node_offline = node.status ≢ online
  Fails step node config now heartbeat_stale = ¬ IsFresh node config now
  Fails step node config now shared_root_mismatch = node.shared_root ≢ config.shared_root
  Fails step node config now cpu_too_high = fl.lt config.max_cpu_percent node.cpu_percent ≡ true
  Fails step node config now memory_too_high =
      fl.lt config.max_memory_percent node.memory_percent ≡ true
  Fails step node config now disk_too_low = fl.lt node.free_disk_gb config.min_free_disk_gb ≡ true
  Fails step node config now thermal_blocked =
      (node.thermal_state ≡ "serious") ⊎ (node.thermal_state ≡ "critical")
  Fails step node config now node_avoided = is_avoided step node.id ≡ ok true
  Fails step node config now battery_runtime_blocked =
      (node.on_battery ≡ true) × (¬ FitsBattery step node config)
  Fails step node config now whisper_concurrency_full =
      (is_whisper_step step ≡ true)
      × (leb_ℤ node.max_whisper_jobs (pos node.active_whisper_jobs) ≡ true)
  Fails step node config now ffmpeg_concurrency_full =
      (is_ffmpeg_step step ≡ true)
      × (leb_ℤ node.max_ffmpeg_jobs (pos node.active_ffmpeg_jobs) ≡ true)

  IsFresh-not-expired :
      (node : Node F) (config : SchedulerConfig F) (now : DateTime)
      → heartbeat_expired fl node config now ≡ true
      → ¬ IsFresh node config now
  unfolding heartbeat_expired
  IsFresh-not-expired node config now h (last, e, l) = ground arith

  FitsBattery-not-blocked :
      (step : Step F) (node : Node F) (config : SchedulerConfig F)
      → battery_blocked fl step node config ≡ ok true
      → (node.on_battery ≡ true) × (¬ FitsBattery step node config)
  unfolding battery_blocked
  FitsBattery-not-blocked step node config h = (ground arith, λ f. ground arith)

  stopped-Fails :
      (step : Step F) (node : Node F) (config : SchedulerConfig F) (now : DateTime) (why : Reason)
      → run_checks fl step node config now ≡ err (reject why)
      → Fails step node config now why
  unfolding run_checks
  stopped-Fails step node config now eligible h = ground arith
  stopped-Fails step node config now why h = ground (
    arith,
    IsFresh-not-expired node config now,
    FitsBattery-not-blocked step node config,
    eq_iff node.shared_root config.shared_root,
    eq_iff "serious" node.thermal_state,
    eq_iff "critical" node.thermal_state,
  )

  rejected-stopped :
      (step : Step F) (node : Node F) (config : SchedulerConfig F) (now : DateTime) (why : Reason)
      → is_node_eligible fl step node config now ≡ rejected why
      → run_checks fl step node config now ≡ err (reject why)
  unfolding is_node_eligible
  rejected-stopped step node config now why h = ground arith

  -- The reason of a rejection names a hard filter that the node does not meet.
  pub is_node_eligible_reason :
      (step : Step F) (node : Node F) (config : SchedulerConfig F) (now : DateTime) (why : Reason)
      → is_node_eligible fl step node config now ≡ rejected why
      → Fails step node config now why
  is_node_eligible_reason step node config now why h =
      stopped-Fails step node config now why (rejected-stopped step node config now why h)

  pub is_pass-accepted :
      (step : Step F) (node : Node F) (config : SchedulerConfig F) (now : DateTime)
      → is_pass (is_node_eligible fl step node config now) ≡ true
      → is_node_eligible fl step node config now ≡ accepted
  unfolding is_node_eligible
  is_pass-accepted step node config now h = ground arith
