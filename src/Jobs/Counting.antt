-- ===== src/Jobs/Counting.antt =====
-- app/adapters/database/postgres/repositories/jobs.py: what the counts and the pages add up to.
use devflowfix.Base.{
  ℕ, zero, suc, ◌+◌, ◌*◌, ◌≤◌, ◌<◌, ◌≡◌, refl, ap, sym, ◌∙◌, Option, none, some, List, [], ◌∷◌,
  ◌++◌, String, keep, length, arith,
}
use devflowfix.Jobs.{
  JobStatus, JobType, Jobs, queued, processing, completed, failed, cancelled, incident_analysis,
  incident_reanalysis, export_csv, export_pdf, bulk_update, bulk_delete, pr_creation,
}
use devflowfix.Jobs.Queries.{
  status_number, type_number, all_statuses, all_types, matches, is_active, take, drop, count_jobs,
  list_jobs, count_statuses, count_types, get_active_jobs, get_job_statistics,
}

-- The sum of the counts of a table of statistics.
unfoldable pub sum_of {ℓ} : {A : Type ℓ} → List (A × ℕ) → ℕ
sum_of [] = 0
sum_of ((a, n) ∷ rows) = n + sum_of rows

status_number-lt : (t : JobStatus) → status_number t < 5
status_number-lt queued = omega arith
status_number-lt processing = omega arith
status_number-lt completed = omega arith
status_number-lt failed = omega arith
status_number-lt cancelled = omega arith

type_number-lt : (t : JobType) → type_number t < 7
type_number-lt incident_analysis = omega arith
type_number-lt incident_reanalysis = omega arith
type_number-lt export_csv = omega arith
type_number-lt export_pdf = omega arith
type_number-lt bulk_update = omega arith
type_number-lt bulk_delete = omega arith
type_number-lt pr_creation = omega arith

module _ {ℓ} {V : Type ℓ} where
  sum_statuses :
      (user : String) (s : Jobs V)
      → sum_of (count_statuses user s all_statuses) ≡ count_jobs user none none s
  unfolding sum_of count_statuses count_jobs keep
  sum_statuses user [] = refl
  sum_statuses user ((id, j) ∷ s) = ground (arith, sum_statuses user s, status_number-lt j.status)

  sum_types :
      (user : String) (s : Jobs V)
      → sum_of (count_types user s all_types) ≡ count_jobs user none none s
  unfolding sum_of count_types count_jobs keep
  sum_types user [] = refl
  sum_types user ((id, j) ∷ s) = ground (arith, sum_types user s, type_number-lt j.job_type)

  count_active :
      (user : String) (s : Jobs V)
      → length (keep (is_active user) s)
        ≡ count_jobs user none (some queued) s + count_jobs user none (some processing) s
  unfolding count_jobs keep
  count_active user [] = refl
  count_active user ((id, j) ∷ s) = ground (arith, count_active user s)

  -- However the database orders rows, if it neither drops nor adds one: the statistics of a user add
  -- up. The counts by status and the counts by type both have the total as their sum, and the active
  -- jobs are the queued ones and those in processing together.
  statistics_add_up :
      (order_by : Jobs V → Jobs V) (user : String) (s : Jobs V)
      → ((rows : Jobs V) → length (order_by rows) ≡ length rows)
      → let r = get_job_statistics order_by user s in
        (sum_of r.by_status ≡ r.total_jobs)
        × (sum_of r.by_type ≡ r.total_jobs)
        × (r.active_jobs
            ≡ count_jobs user none (some queued) s + count_jobs user none (some processing) s)
  unfolding get_job_statistics get_active_jobs
  statistics_add_up order_by user s h =
      (sum_statuses user s, sum_types user s, h (keep (is_active user) s) ∙ count_active user s)

  take-drop : (m n : ℕ) (xs : Jobs V) → take m xs ++ take n (drop m xs) ≡ take (m + n) xs
  unfolding take drop
  take-drop zero n [] = refl
  take-drop (suc m) n [] = refl
  take-drop zero n (x ∷ xs) = ap (λ k. take k (x ∷ xs)) (omega arith)
  take-drop (suc m) n (x ∷ xs) =
      ap (λ ys. x ∷ ys) (take-drop m n xs)
      ∙ ap (λ k. take k (x ∷ xs)) (let e : suc (m + n) ≡ suc m + n = omega arith in e)

  take-none : (xs : Jobs V) → take zero xs ≡ []
  unfolding take
  take-none [] = refl
  take-none (x ∷ xs) = refl

  take-all : (n : ℕ) (xs : Jobs V) → length xs ≤ n → take n xs ≡ xs
  unfolding take
  take-all n [] h = refl
  take-all zero (x ∷ xs) h = absurd (omega arith)
  take-all (suc n) (x ∷ xs) h = ap (λ ys. x ∷ ys) (take-all n xs (omega arith))

  module _ (order_by : Jobs V → Jobs V) where
    -- The first pages of a listing, one after the other.
    unfoldable pub pages : String → Option JobType → Option JobStatus → ℕ → ℕ → Jobs V → Jobs V
    pages user type status limit zero s = []
    pages user type status limit (suc n) s =
        pages user type status limit n s ++ list_jobs order_by user type status limit (n * limit) s

    pages-take :
        (user : String) (type : Option JobType) (status : Option JobStatus) (limit n : ℕ)
        (s : Jobs V)
        → pages user type status limit n s
          ≡ take (n * limit) (order_by (keep (matches user type status) s))
    unfolding pages list_jobs take
    pages-take user type status limit zero s =
        let rows = order_by (keep (matches user type status) s) in
        sym (take-none rows) ∙ ap (λ k. take k rows) (omega arith)
    pages-take user type status limit (suc n) s =
        ap (λ ys. ys ++ list_jobs order_by user type status limit (n * limit) s)
          (pages-take user type status limit n s)
        ∙ take-drop (n * limit) limit _
        ∙ ap (λ k. take k (order_by (keep (matches user type status) s))) (omega arith)

    -- However the database orders rows, if it neither drops nor adds one and orders the same rows
    -- alike each time: the pages of a listing that reach up to its count give every row once, in that
    -- order, and `count_jobs` is their number.
    pages-cover :
        (user : String) (type : Option JobType) (status : Option JobStatus) (limit n : ℕ)
        (s : Jobs V)
        → ((rows : Jobs V) → length (order_by rows) ≡ length rows)
        → count_jobs user type status s ≤ n * limit
        → (pages user type status limit n s ≡ order_by (keep (matches user type status) s))
          × (length (pages user type status limit n s) ≡ count_jobs user type status s)
    unfolding count_jobs
    pages-cover user type status limit n s h b =
        let rows = keep (matches user type status) s in
        let whole : pages user type status limit n s ≡ order_by rows =
          pages-take user type status limit n s
          ∙ take-all (n * limit) (order_by rows) (omega (arith, h rows)) in
        (whole, ap length whole ∙ h rows)
