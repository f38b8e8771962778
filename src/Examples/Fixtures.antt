-- ===== src/Examples/Fixtures.antt =====
-- One Controller with its key, one Worker node, and a Step of each kind that the examples use.
use media_orchard.Prelude.{
  ℕ, ◌+◌, ◌*◌, String, ◌≡◌, refl, true, false, not, none, some, List, [], ◌∷◌, arith, ◌==◌, select,
}
use media_orchard.Prelude.Int.{ℤ, pos, pos_part, neg_part, sub_ℕ, ltb_ℤ, leb_ℤ, int_eq}
use Prim.Native.Nat.{◌/◌, ◌^◌}
use Prim.Native.String
use media_orchard.Prelude.Floats.{Floats, IsOrdered}
use media_orchard.Prelude.Json.{end}
use media_orchard.Shared.Enums.{online, queued, assigned, running, completed, StepStatus-discrete}
use media_orchard.Shared.DateTimes.{aware}
use media_orchard.Shared.Paths.{FileSystem}
use media_orchard.Shared.Texts.{split_on}
use media_orchard.Controller.Models.{Node, Step}
use media_orchard.Controller.Scheduler.Policies.{SchedulerConfig, default_config}
use media_orchard.Controller.Api.{Env, App, Db, Headers}
use media_orchard.Controller.Api.Steps.{Claim}
use media_orchard.Prelude.Results.{ok}
use media_orchard.Controller.StateMachine.{assign_step, recover_timed_out_step}

abbrev add_ℤ : ℤ → ℤ → ℤ
add_ℤ a b = sub_ℕ (pos_part a + pos_part b) (neg_part a + neg_part b)

abbrev negate : ℤ → ℤ
negate a = sub_ℕ (neg_part a) (pos_part a)

abbrev multiply : ℤ → ℤ → ℤ
multiply a b =
    sub_ℕ (pos_part a * pos_part b + neg_part a * neg_part b)
      (pos_part a * neg_part b + neg_part a * pos_part b)

abbrev quotient : ℤ → ℕ → ℤ
quotient a d = sub_ℕ (pos_part a / d) (neg_part a / d)

-- Hundredths, as integers.
abbrev pub hundredths : Floats ℤ
hundredths = record {
  lit = λ m k. quotient (pos (m * 100)) (10 ^ k);
  of_int = λ z. multiply z (pos 100);
  of_text = λ _. none;
  add = add_ℤ;
  sub = λ x y. add_ℤ x (negate y);
  mul = λ x y. quotient (multiply x y) 100;
  div = λ x y. quotient (multiply x (pos 100)) (pos_part y);
  round = λ x _. x;
  is_zero = λ x. int_eq x (pos 0);
  lt = ltb_ℤ;
  le = leb_ℤ;
}

ltb_ℤ-asymm : (x y : ℤ) → ltb_ℤ x y ≡ true → ltb_ℤ y x ≡ false
ltb_ℤ-asymm x y h = ground arith

not-ltb_ℤ-trans : (x y z : ℤ) → ltb_ℤ y x ≡ false → ltb_ℤ z y ≡ false → ltb_ℤ z x ≡ false
not-ltb_ℤ-trans x y z h k = ground arith

pub hundredths-IsOrdered : IsOrdered hundredths
hundredths-IsOrdered = record { lt_asymm = ltb_ℤ-asymm; not_lt_trans = not-ltb_ℤ-trans }

abbrev joined : List String → String
joined [] = ""
joined (p ∷ ps) = String.◌++◌ "/" (String.◌++◌ p (joined ps))

abbrev pub local_fs : FileSystem
local_fs = record {
  resolve = λ path. select (λ p. not (p == "")) (split_on b'/' path);
  render = joined;
  exists = λ _. true;
  is_dir = λ _. true;
}

abbrev pub env : Env ℤ
env = record {
  floats = hundredths;
  sha256_hex = λ key. key;
  fs = local_fs;
  clock = λ k. aware (2_000 + k);
  hex = λ _. "0123456789ab";
}

abbrev pub app : App
app = record {
  api_key_hash = "sha256:key";
  shared_root = "srv" ∷ "media" ∷ [];
  node_priorities = ("mini", pos 5) ∷ [];
}

abbrev pub headers : Headers
headers = record {
  authorization = some "Bearer key";
  x_mediaorchard_key = none;
  x_mediaorchard_node_id = some "mini";
  client_host = none;
}

abbrev pub mini : Node ℤ
mini = record {
  id = "mini";
  name = "Mac mini";
  host = none;
  status = online;
  shared_root = "/srv/media";
  auth_key_id = none;
  max_ffmpeg_jobs = pos 1;
  max_whisper_jobs = pos 1;
  active_jobs = 0;
  active_ffmpeg_jobs = 0;
  active_whisper_jobs = 0;
  cpu_percent = pos 1_000;
  memory_percent = pos 2_000;
  free_disk_gb = pos 10_000;
  thermal_state = "nominal";
  on_battery = false;
  last_heartbeat_at = some (aware 1_000);
  created_at = aware 0;
  updated_at = aware 1_000;
}

abbrev pub queued_step : Step ℤ
queued_step = record {
  id = "step_1";
  job_id = "job_1";
  plan_id = "plan_1";
  step_type = "whisper";
  tool_name = "whisper";
  status = queued;
  depends_on = [];
  assigned_node_id = none;
  assigned_at = none;
  claimed_at = none;
  assignment_epoch = 0;
  input_json = end;
  output_json = none;
  retry_count = 0;
  max_retries = 2;
  started_at = none;
  completed_at = none;
  error_message = none;
}

abbrev pub assigned_step : Step ℤ
assigned_step = record queued_step {
  status = assigned;
  assigned_node_id = some "mini";
  assigned_at = some (aware 1_000);
  assignment_epoch = 1;
}

abbrev pub claimed_step : Step ℤ
claimed_step = record assigned_step { claimed_at = some (aware 1_100) }

abbrev pub running_step : Step ℤ
running_step = record claimed_step { status = running; started_at = some (aware 1_200) }

abbrev pub completed_step : Step ℤ
completed_step = record running_step { status = completed; completed_at = some (aware 1_300) }

-- `running_step` queued again after a timeout, and assigned again.
abbrev pub recovered_step : Step ℤ
recovered_step = record running_step {
  status = queued;
  retry_count = 1;
  assignment_epoch = 2;
  assigned_node_id = none;
  assigned_at = none;
  error_message = some "worker_heartbeat_timeout";
}

abbrev pub reassigned_step : Step ℤ
reassigned_step = record recovered_step {
  status = assigned;
  assignment_epoch = 3;
  assigned_node_id = some "mini";
  assigned_at = some (aware 3_000);
}

pub recovered : recover_timed_out_step running_step ≡ ok recovered_step
unfolding recover_timed_out_step StepStatus-discrete
recovered = refl

pub reassigned : assign_step recovered_step "mini" (aware 3_000) ≡ ok reassigned_step
unfolding assign_step StepStatus-discrete
reassigned = refl

-- A database with this Step and one other.
abbrev pub db_with : Step ℤ → Db ℤ
db_with s = record {
  nodes = mini ∷ [];
  jobs = [];
  plans = [];
  steps = record queued_step { id = "step_0" } ∷ s ∷ [];
}

abbrev pub claim_of : Step ℤ → Claim ℤ
claim_of s = record { step = s; worker = "mini" }

abbrev pub config : SchedulerConfig ℤ
config = default_config hundredths "/srv/media" []
