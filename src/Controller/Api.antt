-- ===== src/Controller/Api.antt =====
-- mediaorchard/controller/main.py: what its handlers share. Each handler runs on the database as
-- committed; what it changed before its last commit stays when it raises, the rest is rolled back.
pub mod Auth
pub mod Nodes
pub mod Jobs
pub mod Steps
pub mod Server
pub mod Invariants
pub mod Settled
use media_orchard.Prelude.{ℕ, String, Option, none, some, List}
use media_orchard.Prelude.Floats.{Floats}
use Prim.Native.String
use media_orchard.Prelude.Results
use media_orchard.Prelude.Results.{Result, ok, err}
use media_orchard.Shared.DateTimes.{DateTime}
use media_orchard.Controller.Models.{Node, Job, Plan, Step}
use media_orchard.Shared.Paths.{AbsPath, FileSystem, PathError, RootReason}
use media_orchard.Controller.StateMachine.{TransitionError}
use media_orchard.Controller.Scheduler.Policies.{Priorities}
use media_orchard.Controller.Scheduler.Loop.{AssignError}

-- What a request takes from outside: the float operations, SHA-256, the file system, the k-th
-- reading of the clock and the k-th `uuid4().hex[:12]`.
pub record Env (F : Type 0) : Type 0 where
  pub floats : Floats F
  pub sha256_hex : String → String
  pub fs : FileSystem
  pub clock : ℕ → DateTime
  pub hex : ℕ → String

-- `app.state`
pub record App : Type 0 where
  pub api_key_hash : String
  pub shared_root : AbsPath
  pub node_priorities : Priorities

pub record Db (F : Type 0) : Type 0 where
  pub nodes : List (Node F)
  pub jobs : List (Job F)
  pub plans : List (Plan F)
  pub steps : List (Step F)

-- The headers that the dependencies read, and `request.client.host`.
pub record Headers : Type 0 where
  pub authorization : Option String
  pub x_mediaorchard_key : Option String
  pub x_mediaorchard_node_id : Option String
  pub client_host : Option String

-- The `HTTPException`s by their detail; the last four are answers of the frameworks: a body that
-- does not validate, a primary key that is there already, and exceptions that nothing catches.
pub data HttpError : Type 0 where
  missing_credentials missing_node_id node_id_mismatch not_owner : HttpError
  node_not_found job_not_found step_not_found : HttpError
  bad_transition : TransitionError → HttpError
  step_changed step_not_assigned unsupported_goal : HttpError
  bad_path : PathError → HttpError
  bad_root : RootReason → HttpError
  invalid_body duplicate_key : HttpError
  path_failed : PathError → HttpError
  scheduling_failed : AssignError → HttpError

unfoldable pub status_code : HttpError → ℕ
status_code missing_credentials = 401
status_code missing_node_id = 403
status_code node_id_mismatch = 403
status_code not_owner = 403
status_code node_not_found = 404
status_code job_not_found = 404
status_code step_not_found = 404
status_code (bad_transition _) = 409
status_code step_changed = 409
status_code step_not_assigned = 409
status_code unsupported_goal = 422
status_code (bad_path _) = 422
status_code (bad_root _) = 422
status_code invalid_body = 422
status_code duplicate_key = 500
status_code (path_failed _) = 500
status_code (scheduling_failed _) = 500

abbrev pub Handler : Type 0 → Type 0 → Type 0
Handler F A = Db F → Result HttpError A × Db F

module _ {F : Type 0} where
  unfoldable pub raise : {A : Type 0} → HttpError → Handler F A
  raise e db = (err e, db)

  unfoldable pub give : {A : Type 0} → A → Handler F A
  give a db = (ok a, db)

  abbrev committed : Result HttpError (Db F) → Handler F (Unit {0})
  committed (ok db') db = (ok tt, db')
  committed (err e) db = (err e, db)

  -- A check that does not touch the database.
  unfoldable pub check : {A : Type 0} → Result HttpError A → Handler F A
  check r db = (r, db)

  unfoldable pub read : {A : Type 0} → (Db F → A) → Handler F A
  read f db = (ok (f db), db)

  -- session.commit() of these changes
  unfoldable pub commit : (Db F → Db F) → Handler F (Unit {0})
  commit f db = (ok tt, f db)

  -- session.commit() of these changes, unless making them raises
  unfoldable pub try_commit : (Db F → Result HttpError (Db F)) → Handler F (Unit {0})
  try_commit f db = committed (f db) db

  abbrev continue : {A B : Type 0} → Result HttpError A → (A → Handler F B) → Handler F B
  continue (ok a) k db = k a db
  continue (err e) k db = (err e, db)

  infixl 5 ◌>>=◌ ◌>>◌
  -- opening this opens the actions above too
  unfoldable pub ◌>>=◌ : {A B : Type 0} → Handler F A → (A → Handler F B) → Handler F B
  unfolding raise give check read commit try_commit
  ◌>>=◌ m k db = let (r, db') = m db in continue r k db'

  abbrev pub ◌>>◌ : {B : Type 0} → Handler F (Unit {0}) → Handler F B → Handler F B
  m >> k = m >>= λ _. k

-- `x = session.get(…); if x is None: raise …`
abbrev pub or_raise : {A : Type 0} → Option A → HttpError → Result HttpError A
or_raise none e = err e
or_raise (some a) e = ok a

-- f"{prefix}_{uuid4().hex[:12]}"
abbrev pub prefixed_id : String → String → String
prefixed_id prefix hex = String.◌++◌ prefix (String.◌++◌ "_" hex)

-- The primary keys.
abbrev pub step_id : {F : Type 0} → Step F → String
step_id s = s.id

abbrev pub job_id : {F : Type 0} → Job F → String
job_id j = j.id

abbrev pub node_id : {F : Type 0} → Node F → String
node_id n = n.id
