-- ===== src/Jobs/Ownership.antt =====
-- app/adapters/database/postgres/repositories/jobs.py: whose jobs a call sees and changes, and which
-- jobs a cancellation and the clean-up change.
use devflowfix.Base.{
  ℕ, ◌+◌, ◌-◌, ◌*◌, ◌≡◌, ◌≢◌, refl, Bool, true, false, not, ◌&&◌, Option, none, some, [], ◌∷◌,
  String, lookup, lookup-insert, lookup-erase, keep, length, IsUnique, truthy, str_eq, eq_iff,
  if◌then◌else◌, Bool-cases, inl, inr, arith,
}
use devflowfix.Jobs.{
  cancelled, Job, Jobs, before, day, is_finished, is_old, commit, get_by_id, with_status,
  update_status, delete, cancel_job, delete_found, cancel_found, cleanup_old_jobs,
}

abbrev remains {ℓ} : {A : Type ℓ} → (A → Bool) → Option A → Option A
remains p none = none
remains p (some a) = if p a then some a else none

module _ {ℓ} {V : Type ℓ} where
  commit-other :
      (id other : String) (f : Job V → Job V) (o : Option (Job V)) (s : Jobs V)
      → str_eq id other ≡ false
      → lookup other (commit id f o s).0 ≡ lookup other s
  commit-other id other f none s d = refl
  commit-other id other f (some j) s d = ground (arith, d, lookup-insert id other (f j) s)

  cancel-other :
      (now : ℕ) (id other : String) (o : Option (Job V)) (s : Jobs V)
      → str_eq id other ≡ false
      → lookup other (cancel_found now id o s).0 ≡ lookup other s
  unfolding update_status
  cancel-other now id other none s d = refl
  cancel-other now id other (some j) s d =
      ground
        (arith, commit-other id other (with_status now cancelled none) (get_by_id id none s) s d)

  delete-other :
      (id other : String) (o : Option (Job V)) (s : Jobs V)
      → str_eq id other ≡ false
      → lookup other (delete_found id o s).0 ≡ lookup other s
  delete-other id other none s d = refl
  delete-other id other (some j) s d = ground (arith, d, lookup-erase id other s)

  -- A user whose identifier is not empty never reads, deletes or cancels a job of another one: it is
  -- not found for that user, and no call of that user on any identifier changes it. With an empty
  -- identifier every job is found.
  pub others_untouched :
      (now : ℕ) (user id other : String) (j : Job V) (s : Jobs V)
      → lookup other s ≡ some j
      → (truthy (some user) ≡ true
          → j.user_id ≢ user
          → (get_by_id other (some user) s ≡ none)
            × (lookup other (delete id user s).0 ≡ some j)
            × (lookup other (cancel_job now id user s).0 ≡ some j))
        × (truthy (some user) ≡ false → get_by_id other (some user) s ≡ some j)
  unfolding get_by_id delete cancel_job update_status
  others_untouched now user id other j s e = (
    λ t n. elim (Bool-cases (str_eq id other)) [
      | inl same ↦ ground (arith, e, t, eq_iff j.user_id user, same, eq_iff id other)
      | inr differs ↦ ground (
        arith,
        e,
        t,
        differs,
        eq_iff j.user_id user,
        delete-other id other (get_by_id id (some user) s) s differs,
        cancel-other now id other (get_by_id id (some user) s) s differs,
      )
    ],
    λ t. ground (arith, e, t),
  )

  -- Cancelling: an owner's job that is queued or in processing becomes cancelled, with the time of
  -- its end, and keeps its progress; a job that is finished stays as it is and nothing is returned.
  cancel_job-verdict :
      (now : ℕ) (user id : String) (j : Job V) (s : Jobs V)
      → lookup id s ≡ some j
      → j.user_id ≡ user
      → let r = cancel_job now id user s in
        (is_finished j.status ≡ true → r ≡ (s, none))
        × (is_finished j.status ≡ false
            → (r.1 ≡ some (record j { status = cancelled; completed_at = some now }))
              × (lookup id r.0 ≡ r.1))
  unfolding get_by_id cancel_job update_status with_status
  cancel_job-verdict now user id j s e o = (
    λ t. ground (arith, e, t, o, eq_iff j.user_id user),
    λ t. ground (
      arith,
      e,
      t,
      o,
      eq_iff j.user_id user,
      eq_iff id id,
      lookup-insert id id (with_status now cancelled none j) s,
    ),
  )

  lookup-keep :
      (p : String × Job V → Bool) (id : String) (s : Jobs V)
      → IsUnique s
      → lookup id (keep p s) ≡ remains (λ j. p (id, j)) (lookup id s)
  unfolding lookup keep
  lookup-keep p id [] u = refl
  lookup-keep p id ((k, i) ∷ s) (n, u) = elim (Bool-cases (str_eq k id)) [
    | inl t ↦ ground (arith, t, n, eq_iff k id, lookup-keep p id s u)
    | inr t ↦ ground (arith, t, lookup-keep p id s u)
  ]

  length-keep-split :
      (p : String × Job V → Bool) (s : Jobs V)
      → length (keep (λ r. not (p r)) s) + length (keep p s) ≡ length s
  unfolding keep
  length-keep-split p [] = refl
  length-keep-split p (r ∷ s) = ground (arith, length-keep-split p s)

  -- The clean-up deletes exactly the jobs that are completed, failed or cancelled and ended more than
  -- the given days ago, and returns their number: a job that is queued or in processing is never
  -- deleted, however old.
  cleanup_old_jobs-verdict :
      (now days : ℕ) (s : Jobs V)
      → IsUnique s
      → let r = cleanup_old_jobs now days s in
        (length r.0 + r.1 ≡ length s)
        × ((id : String) (j : Job V)
            → lookup id s ≡ some j
            → lookup id r.0 ≡ (
                if before j.completed_at (now - days * day) && is_finished j.status
                then none
                else some j))
  unfolding cleanup_old_jobs
  cleanup_old_jobs-verdict now days s u = (
    length-keep-split (is_old now days) s,
    λ id j e. ground (arith, e, lookup-keep (λ r. not (is_old now days r)) id s u),
  )
