-- ===== src/PullRequests/Gate.antt =====
-- app/services/event_processor.py: when a pull request is created, and how often.
use devflowfix.Base.{
  is_some, ℕ, ◌≤◌, ◌≡◌, refl, ap, ◌∙◌, Bool, true, false, not, ◌&&◌, Option, none, some, List, [],
  ◌∷◌, truthy, length, leb, ◌⊎◌, Bool-cases, inl, inr, arith,
}
use devflowfix.Core.Enums.{Decimals}
use devflowfix.PullRequests.{
  Context, PrResult, Creation, returned, raised, is_github, supports_automated_pr, should_create_pr,
  record_post_analysis_state, conclude, attempt_supported, attempt_post_analysis_pr,
}

-- What a call is given, besides the context.
pub record Try : Type 0 where
  pub now : ℕ
  pub later : ℕ
  pub enable_auto_pr : Bool
  pub confidence : ℕ
  pub has_changes : Bool
  pub creation : Creation

abbrev noted : Option PrResult → List PrResult → List PrResult
noted none rs = rs
noted (some r) rs = r ∷ rs

noted-le : (o : Option PrResult) (rs : List PrResult) → rs ≡ [] → length (noted o rs) ≤ 1
noted-le none rs e = rw e (omega arith)
noted-le (some r) rs e = rw e (omega arith)

conclude-once :
    (now later : ℕ) (k : Creation) (c : Context)
    → ((conclude now later k c).1 ≡ none) ⊎ (is_some (conclude now later k c).0.automated_pr ≡ true)
unfolding record_post_analysis_state
conclude-once now later (raised error) c = inl refl
conclude-once now later (returned r) c = ground arith

module _ (fl : Decimals) where
  abbrev pub attempt : Try → Context → Context × Option PrResult
  attempt t c =
      attempt_post_analysis_pr fl t.now t.later t.enable_auto_pr t.confidence t.has_changes
        t.creation c

  abbrev pub admits : Try → Context → Bool
  admits t c =
      t.has_changes
      && (t.enable_auto_pr
          && (truthy c.repository
              && (is_github c.source
                  && (truthy c.user_id
                      && (not (is_some c.automated_pr) && leb (fl.dec 70 100) t.confidence)))))

  -- The creator of pull requests is called exactly where the solution changes code, the feature is
  -- enabled, the context names a repository and a user, the incident is GitHub's, no pull request is
  -- on record and the analysis is confident to 0.70. Otherwise nothing is returned, no pull request is
  -- put on record, and nothing depends on what the creator would do.
  pub attempt_iff :
      (t : Try) (c : Context)
      → (admits t c ≡ true → attempt t c ≡ conclude t.now t.later t.creation c)
        × (admits t c ≡ false
            → ((attempt t c).1 ≡ none)
              × ((attempt t c).0.automated_pr ≡ c.automated_pr)
              × ((k : Creation) → attempt (record t { creation = k }) c ≡ attempt t c))
  unfolding attempt_post_analysis_pr attempt_supported supports_automated_pr should_create_pr
      record_post_analysis_state
  attempt_iff t c = (λ h. ground (arith, h), λ h. ground (arith, h))

  unfoldable pub run : List Try → Context → Context × List PrResult
  run [] c = (c, [])
  run (t ∷ ts) c = let (d, o) = attempt t c in let (e, rs) = run ts d in (e, noted o rs)

  attempt-once :
      (t : Try) (c : Context)
      → ((attempt t c).1 ≡ none) ⊎ (is_some (attempt t c).0.automated_pr ≡ true)
  attempt-once t c = elim (Bool-cases (admits t c)) [
    | inl h ↦ rw ((attempt_iff t c).0 h) (conclude-once t.now t.later t.creation c)
    | inr h ↦ inl ((attempt_iff t c).1 h).0
  ]

  attempt-recorded :
      (t : Try) (c : Context)
      → is_some c.automated_pr ≡ true
      → ((attempt t c).1 ≡ none) × (is_some (attempt t c).0.automated_pr ≡ true)
  attempt-recorded t c h =
      let (a, b, _) = (attempt_iff t c).1 (ground (arith, h)) in (a, ap is_some b ∙ h)

  run-recorded :
      (ts : List Try) (c : Context)
      → is_some c.automated_pr ≡ true
      → ((run ts c).1 ≡ []) × (is_some (run ts c).0.automated_pr ≡ true)
  unfolding run
  run-recorded [] c h = (refl, h)
  run-recorded (t ∷ ts) c h =
      let (a, b) = attempt-recorded t c h in
      let (e, f) = run-recorded ts (attempt t c).0 b in (rw a e, f)

  -- However often an incident is analysed, with whatever settings, solutions, confidences and
  -- answers of the creator: at most one pull request is returned for it, and the context that is left
  -- then has one on record.
  pub run-once :
      (ts : List Try) (c : Context)
      → (length (run ts c).1 ≤ 1)
        × (((run ts c).1 ≡ []) ⊎ (is_some (run ts c).0.automated_pr ≡ true))
  unfolding run
  run-once [] c = (omega arith, inl refl)
  run-once (t ∷ ts) c = elim (attempt-once t c) [
    | inl e ↦ rw e (run-once ts (attempt t c).0)
    | inr h ↦
        let (none_later, kept) = run-recorded ts (attempt t c).0 h in
        (noted-le (attempt t c).1 (run ts (attempt t c).0).1 none_later, inr kept)
  ]
