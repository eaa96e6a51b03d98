-- ===== src/Retriever.antt =====
-- app/services/retriever.py: `retrieve_similar_incidents` with its cache. The repository of vectors is
-- a record of its two searches, with `none` where one raises; `round` is Python's, to four places.
pub mod Again
mod Tests
use devflowfix.Base.{
  ℕ, ◌+◌, ◌-◌, ◌*◌, Bool, true, false, not, ◌&&◌, Option, none, some, List, [], ◌∷◌, ◌++◌, String,
  Dict, lookup, insert, erase, keep, join, length, is_empty, ltb, leb, truthy, if◌then◌else◌,
}
use devflowfix.Core.Enums.{IncidentSource}
use devflowfix.RateLimit.{decimal}

-- A row of the table of incidents, as far as it is read, with the actions of its remediation plan.
pub record Row : Type 0 where
  pub incident_id : String
  pub source : String
  pub severity : String
  pub failure_type : Option String
  pub root_cause : Option String
  pub outcome : Option String
  pub confidence : Option ℕ
  pub actions_performed : List String
  pub action_type : Option String
  pub resolution_time_seconds : Option ℕ
  pub created_at : ℕ
  pub resolved_at : Option ℕ

pub record Retrieved : Type 0 where
  pub incident_id : String
  pub similarity : ℕ
  pub source : String
  pub severity : String
  pub failure_type : Option String
  pub root_cause : Option String
  pub outcome : Option String
  pub confidence : Option ℕ
  pub remediation_actions : List String
  pub resolution_time_seconds : Option ℕ
  pub created_at : ℕ
  pub resolved_at : Option ℕ

pub record Options : Type 0 where
  pub top_k : Option ℕ
  pub similarity_threshold : Option ℕ
  pub source_filter : Option IncidentSource
  pub only_resolved : Bool
  pub min_confidence : ℕ
  pub max_age_days : Option ℕ

-- An embedding is a parameter. `search_by_incident` keeps its own threshold of similarity.
pub record VectorRepository {ℓ} (E : Type ℓ) : Type ℓ where
  pub search_similar_resolved : E → ℕ → ℕ → Option (List (Row × ℕ))
  pub search_by_incident : String → ℕ → ℕ → Option (List (Row × ℕ))

pub record RetrieverService : Type 0 where
  pub default_top_k : ℕ
  pub cache_ttl : ℕ
  pub cache : Dict (List Retrieved × ℕ)

-- Readings of the clock: to look into the cache, for the oldest date, to store, and to clean up.
pub record Readings : Type 0 where
  pub looked : ℕ
  pub searched : ℕ
  pub stored : ℕ
  pub cleaned : ℕ

unfoldable pub extract_actions : Row → List String
extract_actions r =
    if is_empty r.actions_performed
    then (elim r.action_type [ none ↦ [] | some a ↦ if truthy (some a) then a ∷ [] else [] ])
    else r.actions_performed

-- Days in microseconds
abbrev pub day : ℕ
day = 86400000000

-- Without an age, or with the age 0, there is no oldest date.
abbrev is_too_old : ℕ → Option ℕ → Row → Bool
is_too_old now none r = false
is_too_old now (some days) r = ltb 0 days && ltb (r.created_at + days * day) now

abbrev source_text : IncidentSource → String
source_text IncidentSource.github = "github"
source_text IncidentSource.argocd = "argocd"
source_text IncidentSource.kubernetes = "kubernetes"
source_text IncidentSource.gitlab = "gitlab"
source_text IncidentSource.jenkins = "jenkins"
source_text IncidentSource.manual = "manual"

abbrev source_part : Option IncidentSource → String
source_part none = ""
source_part (some s) = join ":" (source_text s)

-- `top_k or self.default_top_k`
abbrev pub top_k_or : ℕ → Option ℕ → ℕ
top_k_or d none = d
top_k_or d (some k) = if ltb 0 k then k else d

unfoldable pub top_k_of : RetrieverService → Options → ℕ
top_k_of s o = top_k_or s.default_top_k o.top_k

-- `_get_from_cache`, which removes an entry that is too old.
abbrev pub found_entry :
    ℕ
    → String
    → RetrieverService
    → Option (List Retrieved × ℕ)
    → RetrieverService × Option (List Retrieved)
found_entry now key s none = (s, none)
found_entry now key s (some (results, timestamp)) =
    if ltb (timestamp + s.cache_ttl) now
    then (record s { cache = erase key s.cache }, none)
    else (s, some results)

unfoldable pub get_from_cache :
    ℕ → String → RetrieverService → RetrieverService × Option (List Retrieved)
get_from_cache now key s = found_entry now key s (lookup key s.cache)

abbrev pub is_kept : ℕ → ℕ → String × (List Retrieved × ℕ) → Bool
is_kept ttl now (key, (results, timestamp)) = leb now (timestamp + ttl)

unfoldable pub cleanup_cache : ℕ → RetrieverService → RetrieverService
cleanup_cache now s = record s { cache = keep (is_kept s.cache_ttl now) s.cache }

unfoldable pub set_cache : ℕ → ℕ → String → List Retrieved → RetrieverService → RetrieverService
set_cache stored cleaned key results s =
    let s' = record s { cache = insert key (results, stored) s.cache } in
    if ltb 1000 (length s'.cache) then cleanup_cache cleaned s' else s'

unfoldable pub build_cache_key : String → ℕ → Option IncidentSource → Bool → String
build_cache_key incident_id top_k source_filter only_resolved = join incident_id (
    join ":" (
      join (decimal top_k)
        (join (source_part source_filter) (if only_resolved then ":resolved" else ""))))

module _ (round : ℕ → ℕ) where
  abbrev pub retrieved : Row × ℕ → Retrieved
  retrieved (r, similarity) = record {
    incident_id = r.incident_id;
    similarity = round similarity;
    source = r.source;
    severity = r.severity;
    failure_type = r.failure_type;
    root_cause = r.root_cause;
    outcome = r.outcome;
    confidence = r.confidence;
    remediation_actions = extract_actions r;
    resolution_time_seconds = r.resolution_time_seconds;
    created_at = r.created_at;
    resolved_at = r.resolved_at;
  }

  unfoldable pub transform_results : ℕ → Option ℕ → List (Row × ℕ) → List Retrieved
  transform_results now age [] = []
  transform_results now age ((r, similarity) ∷ rows) =
      let rest = transform_results now age rows in
      if is_too_old now age r then rest else retrieved (r, similarity) ∷ rest

  -- What a search found is stored; where it raised, nothing is.
  abbrev pub after_search :
      Readings
      → String
      → Options
      → Option (List (Row × ℕ))
      → RetrieverService
      → RetrieverService × List Retrieved
  after_search c key o none s = (s, [])
  after_search c key o (some rows) s =
      let results = transform_results c.searched o.max_age_days rows in
      (set_cache c.stored c.cleaned key results s, results)

  module _ {ℓ} {E : Type ℓ} (embed_incident : String → Option E) where
    -- Without an embedding the answer is empty, as where a search raises.
    abbrev pub search : VectorRepository E → String → ℕ → Options → Option (List (Row × ℕ))
    search repo incident_id top_k o =
        if o.only_resolved
        then (elim (embed_incident incident_id) [
          | none ↦ none
          | some e ↦ repo.search_similar_resolved e top_k o.min_confidence
        ])
        else repo.search_by_incident incident_id top_k o.min_confidence

    -- An empty answer of the cache counts as none.
    abbrev pub answer_of :
        Readings
        → Option (VectorRepository E)
        → String
        → Options
        → RetrieverService × Option (List Retrieved)
        → RetrieverService × List Retrieved
    answer_of c repo incident_id o (s, some (x ∷ xs)) = (s, x ∷ xs)
    answer_of c none incident_id o (s, cached) = (s, [])
    answer_of c (some repo) incident_id o (s, cached) =
        let k = top_k_of s o in
        after_search c (build_cache_key incident_id k o.source_filter o.only_resolved) o
          (search repo incident_id k o) s

    unfoldable pub retrieve_similar_incidents :
        Readings
        → Option (VectorRepository E)
        → String
        → Options
        → RetrieverService
        → RetrieverService × List Retrieved
    retrieve_similar_incidents c repo incident_id o s = answer_of c repo incident_id o (
        get_from_cache c.looked
          (build_cache_key incident_id (top_k_of s o) o.source_filter o.only_resolved) s)
