-- ===== src/Jobs/Queries.antt =====
-- app/adapters/database/postgres/repositories/jobs.py: the queries. How the database orders rows is
-- an argument, `order_by`.
use devflowfix.Base.{
  ℕ, zero, suc, ◌+◌, ◌-◌, ◌*◌, Bool, true, ◌&&◌, ◌||◌, Option, none, some, List, [], ◌∷◌, String,
  keep, length, str_eq, leb, ◌==◌, if◌then◌else◌,
}
use devflowfix.Jobs.{
  JobStatus, queued, processing, completed, failed, cancelled, JobType, incident_analysis,
  incident_reanalysis, export_csv, export_pdf, bulk_update, bulk_delete, pr_creation, Job, Jobs,
  day,
}

-- The places of the members in their enumerations; no two share one.
abbrev pub status_number : JobStatus → ℕ
status_number queued = 0
status_number processing = 1
status_number completed = 2
status_number failed = 3
status_number cancelled = 4

abbrev pub type_number : JobType → ℕ
type_number incident_analysis = 0
type_number incident_reanalysis = 1
type_number export_csv = 2
type_number export_pdf = 3
type_number bulk_update = 4
type_number bulk_delete = 5
type_number pr_creation = 6

abbrev pub all_statuses : List JobStatus
all_statuses = queued ∷ processing ∷ completed ∷ failed ∷ cancelled ∷ []

abbrev pub all_types : List JobType
all_types =
    incident_analysis ∷ incident_reanalysis ∷ export_csv ∷ export_pdf ∷ bulk_update ∷ bulk_delete
    ∷ pr_creation ∷ []

-- Python's slices xs[:n] and xs[n:]
unfoldable pub take {ℓ} : {A : Type ℓ} → ℕ → List A → List A
take n [] = []
take zero (x ∷ xs) = []
take (suc n) (x ∷ xs) = x ∷ take n xs

unfoldable pub drop {ℓ} : {A : Type ℓ} → ℕ → List A → List A
drop n [] = []
drop zero (x ∷ xs) = x ∷ xs
drop (suc n) (x ∷ xs) = drop n xs

abbrev of_type : Option JobType → JobType → Bool
of_type none t = true
of_type (some u) t = type_number t == type_number u

abbrev of_status : Option JobStatus → JobStatus → Bool
of_status none t = true
of_status (some u) t = status_number t == status_number u

-- The counts by status and by type stand in the order of the enumerations, and the success rate
-- as the completed and all completed or failed jobs, where there is one.
pub record Statistics : Type 0 where
  pub total_jobs : ℕ
  pub by_status : List (JobStatus × ℕ)
  pub by_type : List (JobType × ℕ)
  pub success_rate : Option (ℕ × ℕ)
  pub active_jobs : ℕ

abbrev pub rate : ℕ → ℕ → Option (ℕ × ℕ)
rate done finished = if finished == 0 then none else some (done, finished)

module _ {ℓ} {V : Type ℓ} where
  -- The conditions of `list_jobs` and `count_jobs`.
  abbrev pub matches : String → Option JobType → Option JobStatus → String × Job V → Bool
  matches user type status (job_id, j) =
      str_eq j.user_id user && (of_type type j.job_type && of_status status j.status)

  unfoldable pub count_jobs : String → Option JobType → Option JobStatus → Jobs V → ℕ
  count_jobs user type status s = length (keep (matches user type status) s)

  abbrev pub is_active : String → String × Job V → Bool
  is_active user (job_id, j) =
      str_eq j.user_id user
      && (status_number j.status == status_number queued
          || status_number j.status == status_number processing)

  abbrev is_recent : String → ℕ → String × Job V → Bool
  is_recent user cutoff (job_id, j) = str_eq j.user_id user && leb cutoff j.created_at

  unfoldable pub count_statuses : String → Jobs V → List JobStatus → List (JobStatus × ℕ)
  count_statuses user s [] = []
  count_statuses user s (t ∷ ts) = (t, count_jobs user none (some t) s) ∷ count_statuses user s ts

  unfoldable pub count_types : String → Jobs V → List JobType → List (JobType × ℕ)
  count_types user s [] = []
  count_types user s (t ∷ ts) = (t, count_jobs user (some t) none s) ∷ count_types user s ts

  module _ (order_by : Jobs V → Jobs V) where
    unfoldable pub list_jobs : String → Option JobType → Option JobStatus → ℕ → ℕ → Jobs V → Jobs V
    list_jobs user type status limit offset s =
        take limit (drop offset (order_by (keep (matches user type status) s)))

    unfoldable pub get_active_jobs : String → Jobs V → Jobs V
    get_active_jobs user s = order_by (keep (is_active user) s)

    unfoldable pub get_recent_jobs : ℕ → String → ℕ → ℕ → Jobs V → Jobs V
    get_recent_jobs now user days limit s =
        take limit (order_by (keep (is_recent user (now - days * day)) s))

    unfoldable pub get_job_statistics : String → Jobs V → Statistics
    get_job_statistics user s =
        let done = count_jobs user none (some completed) s in
        let finished = done + count_jobs user none (some failed) s in
        record {
          total_jobs = count_jobs user none none s;
          by_status = count_statuses user s all_statuses;
          by_type = count_types user s all_types;
          success_rate = rate done finished;
          active_jobs = length (get_active_jobs user s);
        }
