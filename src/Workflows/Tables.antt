-- ===== src/Workflows/Tables.antt =====
-- The rows of app/adapters/database/postgres/models.py that the tracker of workflows writes or reads,
-- and what an event reports.
use devflowfix.Base.{ℕ, Bool, true, ◌&&◌, Option, none, some, is_some, List, String, size, leb}

-- The rows of the three tables, as far as the tracker writes or reads them; the payload that a run
-- keeps is left out. A run is the object in memory, which may hold what its table refuses.
pub record RepositoryConnection : Type 0 where
  pub id : String
  pub user_id : String
  pub repository_full_name : String
  pub is_enabled : Bool
  pub last_event_at : Option ℕ

pub record TrackedRun : Type 0 where
  pub id : String
  pub incident_id : Option String
  pub repository_connection_id : String
  pub run_id : String
  pub run_number : Option ℕ
  pub workflow_name : Option String
  pub workflow_id : String
  pub status : Option String
  pub conclusion : Option String
  pub branch : Option String
  pub commit_sha : Option String
  pub commit_message : Option String
  pub author : Option String
  pub run_url : Option String
  pub started_at : Option ℕ
  pub completed_at : Option ℕ
  pub created_at : ℕ
  pub updated_at : ℕ

-- What the columns of runs ask: a name and a status, texts of bounded length, a number of 32 bits.
-- That PostgreSQL cuts longer texts that end in spaces only is left out.
abbrev is_within : ℕ → Option String → Bool
is_within width none = true
is_within width (some s) = leb (size s) width

abbrev is_integer : Option ℕ → Bool
is_integer none = true
is_integer (some n) = leb n 2147483647

unfoldable pub is_storable : TrackedRun → Bool
is_storable r =
    is_some r.workflow_name
    && (is_some r.status
        && (is_within 36 (some r.id)
            && (is_within 50 r.incident_id
                && (is_within 36 (some r.repository_connection_id)
                    && (is_within 100 (some r.run_id)
                        && (is_within 255 r.workflow_name
                            && (is_within 100 (some r.workflow_id)
                                && (is_within 50 r.status
                                    && (is_within 50 r.conclusion
                                        && (is_integer r.run_number
                                            && (is_within 255 r.branch
                                                && (is_within 40 r.commit_sha
                                                    && (is_within 1000 r.commit_message
                                                        && (is_within 255 r.author
                                                            && is_within 500 r.run_url))))))))))))))

pub record IncidentRow : Type 0 where
  pub incident_id : String
  pub user_id : String
  pub timestamp : Option ℕ
  pub severity : String
  pub source : String
  pub created_at : ℕ
  pub updated_at : ℕ

pub record Session : Type 0 where
  pub connections : List RepositoryConnection
  pub runs : List TrackedRun
  pub incidents : List IncidentRow
  pub failed : Bool

-- What a payload has under a key: nothing, null, or a value.
pub data Given {ℓ} (A : Type ℓ) : Type ℓ where
  absent : Given A
  null : Given A
  given : A → Given A

-- The head commit of a run, and the name of its author.
pub record Commit : Type 0 where
  pub message : Option String
  pub author : Given (Option String)

-- The workflow_run of a payload, its identifiers as texts. Where nothing and null come to the same,
-- both are `none`.
pub record RunEvent : Type 0 where
  pub run_id : String
  pub run_number : Option ℕ
  pub status : Option String
  pub conclusion : Option String
  pub name : Given String
  pub workflow_id : String
  pub head_branch : Given String
  pub head_sha : Given String
  pub head_commit : Given Commit
  pub run_started_at : Option String
  pub updated_at : Option String
  pub html_url : Option String

-- What one event draws: two identifiers, and the clock.
pub record Fresh : Type 0 where
  pub tracking_id : String
  pub incident_id : String
  pub received : ℕ
  pub created : ℕ
  pub updated : ℕ
  pub incident_created : ℕ
  pub incident_updated : ℕ
