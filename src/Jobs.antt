-- ===== src/Jobs.antt =====
-- app/adapters/database/postgres/repositories/jobs.py and its tables of models.py: background jobs.
-- The table is a dictionary from `job_id`, its primary key, to rows. A method that finds no job
-- returns `none` and changes nothing; every method that changes a row returns it as well.
pub mod Queries
pub mod Lifecycle
pub mod Ownership
pub mod Counting
mod Tests
use devflowfix.Base.{
  is_some, ℕ, ◌+◌, ◌-◌, ◌*◌, Bool, true, false, not, ◌&&◌, ◌||◌, Option, none, some, List, [], ◌∷◌,
  String, Dict, lookup, insert, erase, keep, length, truthy, str_eq, ltb, leb, ◌==◌, if◌then◌else◌,
}

pub data JobStatus : Type 0 where
  queued processing completed failed cancelled : JobStatus

pub data JobType : Type 0 where
  incident_analysis incident_reanalysis export_csv export_pdf : JobType
  bulk_update bulk_delete pr_creation : JobType

-- A row. `V` are the values of JSON, `created_at` and all other times are microseconds.
pub record Job {ℓ} (V : Type ℓ) : Type ℓ where
  pub user_id : String
  pub job_type : JobType
  pub status : JobStatus
  pub progress : ℕ
  pub current_step : Option String
  pub created_at : ℕ
  pub started_at : Option ℕ
  pub completed_at : Option ℕ
  pub estimated_completion : Option ℕ
  pub result : Option (Dict V)
  pub error_message : Option String
  pub parameters : Dict V
  pub result_file_path : Option String
  pub result_file_size : Option ℕ
  pub result_file_type : Option String
  pub job_metadata : Dict V

abbrev pub Jobs {ℓ} : Type ℓ → Type ℓ
Jobs V = Dict (Job V)

-- Python's integers
pub data ℤ : Type 0 where
  pos : ℕ → ℤ
  negsuc : ℕ → ℤ

-- max(0, min(100, progress))
unfoldable pub clamp : ℤ → ℕ
clamp (negsuc n) = 0
clamp (pos n) = if leb n 100 then n else 100

-- The new value where there is one, else the old one.
abbrev pub or_keep {ℓ} : {A : Type ℓ} → Option A → Option A → Option A
or_keep none old = old
or_keep (some a) old = some a

abbrev pub or_keep_text : Option String → Option String → Option String
or_keep_text t old = if truthy t then t else old

abbrev or_empty {ℓ} : {V : Type ℓ} → Option (Dict V) → Dict V
or_empty none = []
or_empty (some d) = d

-- COMPLETED, FAILED or CANCELLED
abbrev pub is_finished : JobStatus → Bool
is_finished queued = false
is_finished processing = false
is_finished completed = true
is_finished failed = true
is_finished cancelled = true

abbrev pub is_processing : JobStatus → Bool
is_processing processing = true
is_processing queued = false
is_processing completed = false
is_processing failed = false
is_processing cancelled = false

abbrev pub is_completed : JobStatus → Bool
is_completed completed = true
is_completed queued = false
is_completed processing = false
is_completed failed = false
is_completed cancelled = false

abbrev pub day : ℕ
day = 86400000000

abbrev pub before : Option ℕ → ℕ → Bool
before none t = false
before (some c) t = ltb c t

module _ {ℓ} {V : Type ℓ} where
  -- `none` is the IntegrityError of an identifier that is there already.
  unfoldable pub create :
      ℕ → String → String → JobType → Option (Dict V) → Option (Dict V) → Jobs V → Option (Jobs V)
  create now job_id user_id job_type parameters job_metadata s =
      if is_some (lookup job_id s)
      then none
      else some (
          insert job_id
            (record {
              user_id = user_id;
              job_type = job_type;
              status = queued;
              progress = 0;
              current_step = none;
              created_at = now;
              started_at = none;
              completed_at = none;
              estimated_completion = none;
              result = none;
              error_message = none;
              parameters = or_empty parameters;
              result_file_path = none;
              result_file_size = none;
              result_file_type = none;
              job_metadata = or_empty job_metadata;
            })
            s)

  -- Without a user, or with an empty one, the owner is not asked for.
  abbrev pub owned_by : Option String → Job V → Bool
  owned_by none j = true
  owned_by (some user) j = not (truthy (some user)) || str_eq j.user_id user

  abbrev pub if_owned : Option String → Option (Job V) → Option (Job V)
  if_owned user none = none
  if_owned user (some j) = if owned_by user j then some j else none

  unfoldable pub get_by_id : String → Option String → Jobs V → Option (Job V)
  get_by_id job_id user s = if_owned user (lookup job_id s)

  -- A change of the row that was found, with the commit.
  abbrev pub commit : String → (Job V → Job V) → Option (Job V) → Jobs V → Jobs V × Option (Job V)
  commit job_id f none s = (s, none)
  commit job_id f (some j) s = (insert job_id (f j) s, some (f j))

  unfoldable pub with_status : ℕ → JobStatus → Option String → Job V → Job V
  with_status now status error_message j = record j {
    status = status;
    started_at =
        if is_processing status && not (is_some j.started_at) then some now else j.started_at;
    completed_at = if is_finished status then some now else j.completed_at;
    progress = if is_completed status then 100 else j.progress;
    error_message = or_keep_text error_message j.error_message;
  }

  unfoldable pub update_status :
      ℕ → String → JobStatus → Option String → Jobs V → Jobs V × Option (Job V)
  update_status now job_id status error_message s =
      commit job_id (with_status now status error_message) (get_by_id job_id none s) s

  unfoldable pub with_progress : ℤ → Option String → Option ℕ → Job V → Job V
  with_progress progress current_step estimated_completion j = record j {
    progress = clamp progress;
    current_step = or_keep current_step j.current_step;
    estimated_completion = or_keep estimated_completion j.estimated_completion;
  }

  unfoldable pub update_progress :
      String → ℤ → Option String → Option ℕ → Jobs V → Jobs V × Option (Job V)
  update_progress job_id progress current_step estimated_completion s =
      commit job_id (with_progress progress current_step estimated_completion)
        (get_by_id job_id none s) s

  unfoldable pub with_result : Dict V → Option String → Option ℕ → Option String → Job V → Job V
  with_result result path size type j = record j {
    result = some result;
    result_file_path = or_keep_text path j.result_file_path;
    result_file_size = or_keep size j.result_file_size;
    result_file_type = or_keep_text type j.result_file_type;
  }

  unfoldable pub set_result :
      String → Dict V → Option String → Option ℕ → Option String → Jobs V → Jobs V × Option (Job V)
  set_result job_id result path size type s =
      commit job_id (with_result result path size type) (get_by_id job_id none s) s

  abbrev pub delete_found : String → Option (Job V) → Jobs V → Jobs V × Bool
  delete_found job_id none s = (s, false)
  delete_found job_id (some j) s = (erase job_id s, true)

  unfoldable pub delete : String → String → Jobs V → Jobs V × Bool
  delete job_id user s = delete_found job_id (get_by_id job_id (some user) s) s

  abbrev pub cancel_found : ℕ → String → Option (Job V) → Jobs V → Jobs V × Option (Job V)
  cancel_found now job_id none s = (s, none)
  cancel_found now job_id (some j) s =
      if is_finished j.status then (s, none) else update_status now job_id cancelled none s

  unfoldable pub cancel_job : ℕ → String → String → Jobs V → Jobs V × Option (Job V)
  cancel_job now job_id user s = cancel_found now job_id (get_by_id job_id (some user) s) s

  -- What the clean-up selects. A clock that shows less than the days ago is not meant.
  abbrev pub is_old : ℕ → ℕ → String × Job V → Bool
  is_old now days (job_id, j) = before j.completed_at (now - days * day) && is_finished j.status

  unfoldable pub cleanup_old_jobs : ℕ → ℕ → Jobs V → Jobs V × ℕ
  cleanup_old_jobs now days s =
      (keep (λ r. not (is_old now days r)) s, length (keep (is_old now days) s))
