-- ===== src/Jobs/Tests.antt =====
-- Concrete jobs for app/adapters/database/postgres/repositories/jobs.py.
use devflowfix.Base.{
  ℕ, ◌*◌, ◌≡◌, ◌≢◌, refl, true, false, none, some, List, [], ◌∷◌, length, ◌≤◌, lookup, insert, keep,
  truthy, arith,
}
use devflowfix.Jobs.{
  queued, processing, completed, export_csv, Job, Jobs, pos, create, get_by_id, delete, cancel_job,
}
use devflowfix.Jobs.Queries.{count_jobs}
use devflowfix.Jobs.Lifecycle.{Call, creates, updates, advances, cancels, run, AreKept, run-AreKept}
use devflowfix.Jobs.Ownership.{others_untouched}

abbrev calls : List (Call ℕ)
calls =
    creates 1 "j1" "ann" export_csv none none
    ∷ creates 2 "j2" "bob" export_csv none none
    ∷ updates 3 "j1" processing none
    ∷ advances "j1" (pos 130) none none
    ∷ cancels 4 "j2" "bob"
    ∷ []

run-AreKept_example : AreKept (run calls [])
run-AreKept_example = run-AreKept calls

abbrev fresh_job : Job ℕ
fresh_job = record {
  user_id = "ann";
  job_type = export_csv;
  status = queued;
  progress = 0;
  current_step = none;
  created_at = 1;
  started_at = none;
  completed_at = none;
  estimated_completion = none;
  result = none;
  error_message = none;
  parameters = [];
  result_file_path = none;
  result_file_size = none;
  result_file_type = none;
  job_metadata = [];
}

abbrev two_jobs : Jobs ℕ
two_jobs =
    ("j1", fresh_job) ∷ ("j2", record fresh_job { status = completed; completed_at = some 5 }) ∷ []

created : create 1 "j1" "ann" export_csv none none [] ≡ some (("j1", fresh_job) ∷ [])
unfolding create lookup insert
created = refl

there : lookup "j1" two_jobs ≡ some fresh_job
unfolding lookup
there = refl

others_untouched_example :
    (truthy (some "bob") ≡ true
      → fresh_job.user_id ≢ "bob"
      → (get_by_id "j1" (some "bob") two_jobs ≡ none)
        × (lookup "j1" (delete "j1" "bob" two_jobs).0 ≡ some fresh_job)
        × (lookup "j1" (cancel_job 9 "j1" "bob" two_jobs).0 ≡ some fresh_job))
    × (truthy (some "bob") ≡ false → get_by_id "j1" (some "bob") two_jobs ≡ some fresh_job)
others_untouched_example = others_untouched 9 "bob" "j1" "j1" fresh_job two_jobs there

abbrev as_stored : Jobs ℕ → Jobs ℕ
as_stored rows = rows

same_length : (rows : Jobs ℕ) → length (as_stored rows) ≡ length rows
same_length rows = refl

two_counted : count_jobs "ann" none none two_jobs ≤ 2 * 1
unfolding count_jobs keep
two_counted = omega arith
