-- ===== src/Jobs/Lifecycle.antt =====
-- app/adapters/database/postgres/repositories/jobs.py: the rows over every row of calls.
use devflowfix.Base.{
  is_some, ℕ, ◌≤◌, ◌≡◌, refl, Bool, true, not, Option, none, some, List, [], ◌∷◌, String, Dict,
  lookup, insert, erase, keep, IsUnique, insert-IsUnique, erase-IsUnique, Bool-cases, Option-cases,
  inl, inr, arith,
}
use devflowfix.Jobs.{
  JobStatus, JobType, Job, Jobs, ℤ, pos, negsuc, clamp, is_finished, is_processing, create,
  get_by_id, commit, with_status, update_status, with_progress, update_progress, with_result,
  set_result, delete, cancel_job, cancel_found, delete_found, is_old, cleanup_old_jobs, queued,
  processing, completed, failed, cancelled,
}

pub data Call {ℓ} (V : Type ℓ) : Type ℓ where
  creates :
      (now : ℕ) (job_id user_id : String) (job_type : JobType) (parameters meta : Option (Dict V))
      → Call V
  updates : (now : ℕ) (job_id : String) (status : JobStatus) (error : Option String) → Call V
  advances : (job_id : String) (progress : ℤ) (step : Option String) (estimate : Option ℕ) → Call V
  concludes :
      (job_id : String) (result : Dict V) (path : Option String) (size : Option ℕ)
      (type : Option String)
      → Call V
  deletes : (job_id user : String) → Call V
  cancels : (now : ℕ) (job_id user : String) → Call V
  cleans : (now days : ℕ) → Call V

abbrev or_same {ℓ} : {A : Type ℓ} → A → Option A → A
or_same s none = s
or_same s (some t) = t

clamp-le : (n : ℤ) → clamp n ≤ 100
unfolding clamp
clamp-le (pos n) = ground arith
clamp-le (negsuc n) = omega arith

module _ {ℓ} {V : Type ℓ} where
  -- A creation that raises changes nothing.
  unfoldable pub perform : Call V → Jobs V → Jobs V
  perform (creates now id user t p m) s = or_same s (create now id user t p m s)
  perform (updates now id status error) s = (update_status now id status error s).0
  perform (advances id progress step estimate) s = (update_progress id progress step estimate s).0
  perform (concludes id result path size type) s = (set_result id result path size type s).0
  perform (deletes id user) s = (delete id user s).0
  perform (cancels now id user) s = (cancel_job now id user s).0
  perform (cleans now days) s = (cleanup_old_jobs now days s).0

  unfoldable pub run : List (Call V) → Jobs V → Jobs V
  run [] s = s
  run (c ∷ cs) s = run cs (perform c s)

  pub record IsSound (j : Job V) : Type ℓ where
    pub bounded : j.progress ≤ 100
    pub started : is_processing j.status ≡ true → is_some j.started_at ≡ true
    pub ended : is_finished j.status ≡ true → is_some j.completed_at ≡ true

  abbrev pub AreSound : Jobs V → Type ℓ
  AreSound [] = Unit
  AreSound ((id, j) ∷ s) = IsSound j × AreSound s

  lookup-IsSound :
      (id : String) (j : Job V) (s : Jobs V) → AreSound s → lookup id s ≡ some j → IsSound j
  unfolding lookup
  lookup-IsSound id j [] a e = absurd (ground (arith, e))
  lookup-IsSound id j ((k, i) ∷ s) (h, a) e = ground (arith, lookup-IsSound id j s a)

  insert-AreSound :
      (id : String) (j : Job V) (s : Jobs V) → IsSound j → AreSound s → AreSound (insert id j s)
  unfolding insert
  insert-AreSound id j [] h a = (h, tt)
  insert-AreSound id j ((k, i) ∷ s) h (g, a) = ground (arith, insert-AreSound id j s h a)

  erase-AreSound : (id : String) (s : Jobs V) → AreSound s → AreSound (erase id s)
  unfolding erase
  erase-AreSound id [] a = tt
  erase-AreSound id ((k, i) ∷ s) (g, a) = ground (arith, erase-AreSound id s a)

  keep-AreSound : (p : String × Job V → Bool) (s : Jobs V) → AreSound s → AreSound (keep p s)
  unfolding keep
  keep-AreSound p [] a = tt
  keep-AreSound p ((k, i) ∷ s) (g, a) = ground (arith, keep-AreSound p s a)

  lookup-keep-none :
      (p : String × Job V → Bool) (id : String) (s : Jobs V)
      → lookup id s ≡ none
      → lookup id (keep p s) ≡ none
  unfolding keep lookup
  lookup-keep-none p id [] e = refl
  lookup-keep-none p id ((k, i) ∷ s) e = ground (arith, lookup-keep-none p id s)

  keep-IsUnique : (p : String × Job V → Bool) (s : Jobs V) → IsUnique s → IsUnique (keep p s)
  unfolding keep
  keep-IsUnique p [] u = tt
  keep-IsUnique p ((k, i) ∷ s) (n, u) =
      ground (arith, keep-IsUnique p s u, lookup-keep-none p k s n)

  with_status-IsSound :
      (now : ℕ) (status : JobStatus) (error : Option String) (j : Job V)
      → IsSound j
      → IsSound (with_status now status error j)
  unfolding with_status
  with_status-IsSound now queued error j h = ground (arith, h)
  with_status-IsSound now processing error j h = ground (arith, h)
  with_status-IsSound now completed error j h = ground (arith, h)
  with_status-IsSound now failed error j h = ground (arith, h)
  with_status-IsSound now cancelled error j h = ground (arith, h)

  with_progress-IsSound :
      (progress : ℤ) (step : Option String) (estimate : Option ℕ) (j : Job V)
      → IsSound j
      → IsSound (with_progress progress step estimate j)
  unfolding with_progress
  with_progress-IsSound progress step estimate j h = record {
    bounded = clamp-le progress;
    started = h.started;
    ended = h.ended;
  }

  with_result-IsSound :
      (result : Dict V) (path : Option String) (size : Option ℕ) (type : Option String) (j : Job V)
      → IsSound j
      → IsSound (with_result result path size type j)
  unfolding with_result
  with_result-IsSound result path size type j h = record {
    bounded = h.bounded;
    started = h.started;
    ended = h.ended;
  }

  pub record AreKept (s : Jobs V) : Type ℓ where
    pub sound : AreSound s
    pub unique : IsUnique s

  commit-AreKept :
      (id : String) (f : Job V → Job V) (o : Option (Job V)) (s : Jobs V)
      → ((j : Job V) → IsSound j → IsSound (f j))
      → ((j : Job V) → o ≡ some j → IsSound j)
      → AreKept s
      → AreKept (commit id f o s).0
  commit-AreKept id f none s g l k = k
  commit-AreKept id f (some j) s g l k = record {
    sound = insert-AreSound id (f j) s (g j (l j refl)) k.sound;
    unique = insert-IsUnique id (f j) s k.unique;
  }

  get_by_id-IsSound :
      (id : String) (user : Option String) (j : Job V) (s : Jobs V)
      → AreKept s
      → get_by_id id user s ≡ some j
      → IsSound j
  unfolding get_by_id
  get_by_id-IsSound id user j s k e = elim (Option-cases (lookup id s)) [
    | inl n ↦ absurd (ground (arith, e, n))
    | inr (i, f) ↦
        let h = lookup-IsSound id i s k.sound f in
        let same : i ≡ j = ground (arith, e, f) in rw (← same) h
  ]

  update_status-AreKept :
      (now : ℕ) (id : String) (status : JobStatus) (error : Option String) (s : Jobs V)
      → AreKept s
      → AreKept (update_status now id status error s).0
  unfolding update_status
  update_status-AreKept now id status error s k =
      commit-AreKept id (with_status now status error) (get_by_id id none s) s
        (with_status-IsSound now status error) (λ j e. get_by_id-IsSound id none j s k e) k

  create-AreKept :
      (now : ℕ) (id user : String) (t : JobType) (p m : Option (Dict V)) (s : Jobs V)
      → AreKept s
      → AreKept (or_same s (create now id user t p m s))
  unfolding create
  create-AreKept now id user t p m s k = elim (Bool-cases (is_some (lookup id s))) [
    | inl h ↦ rw h k
    | inr h ↦ rw h (record {
      sound = insert-AreSound id _ s (ground arith) k.sound;
      unique = insert-IsUnique id _ s k.unique;
    })
  ]

  delete-AreKept :
      (id : String) (o : Option (Job V)) (s : Jobs V) → AreKept s → AreKept (delete_found id o s).0
  delete-AreKept id none s k = k
  delete-AreKept id (some j) s k = record {
    sound = erase-AreSound id s k.sound;
    unique = erase-IsUnique id s k.unique;
  }

  cancel-AreKept :
      (now : ℕ) (id : String) (o : Option (Job V)) (s : Jobs V)
      → AreKept s
      → AreKept (cancel_found now id o s).0
  cancel-AreKept now id none s k = k
  cancel-AreKept now id (some j) s k =
      ground (arith, update_status-AreKept now id cancelled none s k)

  perform-AreKept : (c : Call V) (s : Jobs V) → AreKept s → AreKept (perform c s)
  unfolding perform update_progress set_result delete cancel_job cleanup_old_jobs
  perform-AreKept (creates now id user t p m) s k = create-AreKept now id user t p m s k
  perform-AreKept (updates now id status error) s k = update_status-AreKept now id status error s k
  perform-AreKept (advances id progress step estimate) s k =
      commit-AreKept id (with_progress progress step estimate) (get_by_id id none s) s
        (with_progress-IsSound progress step estimate) (λ j e. get_by_id-IsSound id none j s k e) k
  perform-AreKept (concludes id result path size type) s k =
      commit-AreKept id (with_result result path size type) (get_by_id id none s) s
        (with_result-IsSound result path size type) (λ j e. get_by_id-IsSound id none j s k e) k
  perform-AreKept (deletes id user) s k = delete-AreKept id (get_by_id id (some user) s) s k
  perform-AreKept (cancels now id user) s k = cancel-AreKept now id (get_by_id id (some user) s) s k
  perform-AreKept (cleans now days) s k = record {
    sound = keep-AreSound (λ r. not (is_old now days r)) s k.sound;
    unique = keep-IsUnique (λ r. not (is_old now days r)) s k.unique;
  }

  run-kept : (cs : List (Call V)) (s : Jobs V) → AreKept s → AreKept (run cs s)
  unfolding run
  run-kept [] s k = k
  run-kept (c ∷ cs) s k = run-kept cs (perform c s) (perform-AreKept c s k)

  -- After any row of calls on an empty table, of any users, statuses and times: no identifier stands
  -- twice, every progress is at most 100, every job in processing has a time of its start, and every
  -- completed, failed or cancelled job has a time of its end.
  pub run-AreKept : (cs : List (Call V)) → AreKept (run cs [])
  run-AreKept cs = run-kept cs [] (record { sound = tt; unique = tt })
