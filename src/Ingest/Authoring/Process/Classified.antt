-- ===== src/Ingest/Authoring/Process/Classified.antt =====
-- What `_classify_agent_result` of ingest/authoring/orchestrator.py makes of a report.
use uk_jamaat_directory.Prelude.{
  ℕ, ◌≡◌, ◌≢◌, refl, ◌⊎◌, inl, inr, Option, none, some, List, [], ◌∷◌, Bool-cases,
}
use uk_jamaat_directory.Domain.{
  AuthoringTaskStatus, authoring_task_status_eq, AuthoringFailureCategory,
}
use uk_jamaat_directory.Schedules.Parse.{Text, codes, same_text}
use uk_jamaat_directory.Ingest.Extract.Scripts.{check_script_source}
use uk_jamaat_directory.Ingest.Authoring.FailureTaxonomy.{said}
use uk_jamaat_directory.Ingest.Authoring.Retry.{SourceProcessResult}
use uk_jamaat_directory.Ingest.Authoring.Retry.Runs.{IsFinished, as_failed, as_skipped, as_authored}
use uk_jamaat_directory.Ingest.Authoring.Process.{
  AgentReport, Attempt, ScriptFile, Workshop, ended, fails, classify_issues, classify_file,
  classify_authored, classify_status, classify_said_status, classify_agent_result,
}

module _ (w : Workshop) where
  -- The script that the result names was found, read, and has no issue of the static checks.
  pub record IsChecked (r : SourceProcessResult) : Type 0 where
    pub reported : Text
    pub path : Text
    pub named : r.script_path ≡ some path
    pub source : Text
    pub found : w.script_at r.repair_attempts reported ≡ ScriptFile.source_text path source
    pub clean : check_script_source w.parse source ≡ []

  pub record IsClassified (repairs : ℕ) (r : SourceProcessResult) : Type 0 where
    pub counted : r.repair_attempts ≡ repairs
    pub finished : IsFinished r.status
    pub authored : r.status ≡ AuthoringTaskStatus.awaiting_review → IsChecked r
    pub category : r.status ≡ AuthoringTaskStatus.failed → r.failure_category ≢ none
    pub issues : (r.validation_issues ≡ []) ⊎ (r.status ≡ AuthoringTaskStatus.failed)

  fails-IsClassified :
      (repairs : ℕ) (category : AuthoringFailureCategory)
      → IsClassified repairs (fails repairs category)
  fails-IsClassified repairs category = record {
    counted = refl;
    finished = as_failed;
    authored = λ q. cc;
    category = λ q n. cc;
    issues = inl refl;
  }

  skips-IsClassified :
      (repairs : ℕ) (category : Option AuthoringFailureCategory)
      → IsClassified repairs (ended repairs AuthoringTaskStatus.skipped_review category)
  skips-IsClassified repairs category = record {
    counted = refl;
    finished = as_skipped;
    authored = λ q. cc;
    category = λ q n. cc;
    issues = inl refl;
  }

  -- A result, or the exception of a file that is no UTF-8.
  abbrev pub IsClassifiedAttempt : ℕ → Attempt SourceProcessResult → Type 0
  IsClassifiedAttempt repairs (Attempt.returned r) = IsClassified repairs r
  IsClassifiedAttempt repairs Attempt.raised =
      (reported : Text) × (w.script_at repairs reported ≡ ScriptFile.undecodable)

  module _ (repairs : ℕ) where
    classify_issues-IsClassified :
        (reported path source : Text) (issues : List Text)
        → w.script_at repairs reported ≡ ScriptFile.source_text path source
        → check_script_source w.parse source ≡ issues
        → IsClassified repairs (classify_issues w repairs path issues)
    classify_issues-IsClassified reported path source [] found clean = record {
      counted = refl;
      finished = as_authored;
      authored = λ q. record {
        reported = reported;
        path = path;
        named = refl;
        source = source;
        found = found;
        clean = clean;
      };
      category = λ q n. cc;
      issues = inl refl;
    }
    classify_issues-IsClassified reported path source (issue ∷ issues) found clean = record {
      counted = refl;
      finished = as_failed;
      authored = λ q. cc;
      category = λ q n. cc;
      issues = inr refl;
    }

    classify_file-IsClassified :
        (path : Text) (file : ScriptFile)
        → w.script_at repairs path ≡ file
        → IsClassifiedAttempt repairs (classify_file w repairs file)
    classify_file-IsClassified path ScriptFile.missing h = fails-IsClassified repairs _
    classify_file-IsClassified path ScriptFile.unreadable h = fails-IsClassified repairs _
    classify_file-IsClassified path ScriptFile.undecodable h = (path, h)
    classify_file-IsClassified path (ScriptFile.source_text absolute source) h =
        classify_issues-IsClassified path absolute source (check_script_source w.parse source) h
          refl

    classify_authored-IsClassified :
        (path : Option Text) → IsClassifiedAttempt repairs (classify_authored w repairs path)
    classify_authored-IsClassified none = fails-IsClassified repairs _
    classify_authored-IsClassified (some path) =
        classify_file-IsClassified path (w.script_at repairs path) refl

    classify_status-IsClassified :
        (report : AgentReport) (status : Text)
        → IsClassifiedAttempt repairs (classify_status w repairs report status)
    unfolding classify_status
    classify_status-IsClassified report status =
        elim (Bool-cases (same_text status (codes "skipped_review"))) [
          | inl t ↦ rw t (skips-IsClassified repairs none)
          | inr s ↦ elim (Bool-cases (same_text status (codes "failed"))) [
            | inl t ↦ rw (s, t) (fails-IsClassified repairs _)
            | inr f ↦ elim (Bool-cases (same_text status (codes "authored"))) [
              | inl t ↦ rw (s, f, t) (classify_authored-IsClassified (said report.script_path))
              | inr a ↦ rw (s, f, a) (fails-IsClassified repairs _)
            ]
          ]
        ]

    classify_said_status-IsClassified :
        (report : AgentReport) (status : Option Text)
        → IsClassifiedAttempt repairs (classify_said_status w repairs report status)
    classify_said_status-IsClassified report none = fails-IsClassified repairs _
    classify_said_status-IsClassified report (some status) = classify_status-IsClassified report _

    pub classify_agent_result-IsClassified :
        (report : AgentReport)
        → IsClassifiedAttempt repairs (classify_agent_result w repairs report)
    unfolding classify_agent_result
    classify_agent_result-IsClassified report =
        classify_said_status-IsClassified report (said report.status)
