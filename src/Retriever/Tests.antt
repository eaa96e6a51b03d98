-- ===== src/Retriever/Tests.antt =====
-- Concrete searches for app/services/retriever.py.
use devflowfix.Base.{ℕ, ◌≡◌, refl, false, Option, none, some, [], ◌∷◌, String, lookup, arith}
use devflowfix.Retriever.{
  Row, Retrieved, Options, VectorRepository, RetrieverService, Readings, transform_results,
  extract_actions, retrieve_similar_incidents, top_k_of, build_cache_key,
}
use devflowfix.Retriever.Again.{retrieve-again}

abbrev old_row : Row
old_row = record {
  incident_id = "inc_1";
  source = "github";
  severity = "high";
  failure_type = none;
  root_cause = some "flaky test";
  outcome = some "success";
  confidence = some 9000;
  actions_performed = [];
  action_type = some "github_rerun_workflow";
  resolution_time_seconds = some 120;
  created_at = 10;
  resolved_at = none;
}

-- A repository that finds one old incident, and one that raises.
abbrev one_row : VectorRepository ℕ
one_row = record {
  search_similar_resolved = λ e k x. none;
  search_by_incident = λ id k x. some ((old_row, 9123) ∷ []);
}

abbrev any_age : Options
any_age = record {
  top_k = none;
  similarity_threshold = none;
  source_filter = none;
  only_resolved = false;
  min_confidence = 0;
  max_age_days = none;
}

abbrev one_day : Options
one_day = record any_age { max_age_days = some 1; min_confidence = 9500 }

abbrev empty_cache : RetrieverService
empty_cache = record { default_top_k = 5; cache_ttl = 300000000; cache = [] }

abbrev at_time : ℕ → Readings
at_time now = record { looked = now; searched = now; stored = now; cleaned = now }

abbrev found : Retrieved
found = record {
  incident_id = "inc_1";
  similarity = 9123;
  source = "github";
  severity = "high";
  failure_type = none;
  root_cause = some "flaky test";
  outcome = some "success";
  confidence = some 9000;
  remediation_actions = "github_rerun_workflow" ∷ [];
  resolution_time_seconds = some 120;
  created_at = 10;
  resolved_at = none;
}

found_rows :
    transform_results (λ x. x) 900000000000 any_age.max_age_days ((old_row, 9123) ∷ []) ≡ found ∷ []
unfolding transform_results extract_actions
found_rows = refl

-- An embedding is a number here.
abbrev embedded : String → Option ℕ
embedded id = some 0

nothing_cached : (key : String) → lookup key empty_cache.cache ≡ none
unfolding lookup
nothing_cached key = refl

retrieve-again_example :
    let first =
      retrieve_similar_incidents
        (λ x. x)
        embedded
        (at_time 900000000000)
        (some one_row)
        "inc_2"
        any_age
        empty_cache in
    (first.1 ≡ found ∷ [])
    × ((retrieve_similar_incidents
          (λ x. x)
          embedded
          (at_time 900000000001)
          none
          "inc_2"
          one_day
          first.0).1
        ≡ found ∷ [])
retrieve-again_example =
    retrieve-again (λ x. x) embedded (at_time 900000000000) (at_time 900000000001) one_row none
      "inc_2" any_age one_day empty_cache ((old_row, 9123) ∷ []) found []
      (nothing_cached (build_cache_key "inc_2" (top_k_of empty_cache any_age) none false)) refl
      found_rows (omega arith) (omega arith) refl refl refl
