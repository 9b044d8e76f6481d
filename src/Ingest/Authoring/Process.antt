-- ===== src/Ingest/Authoring/Process.antt =====
-- `_process_source` of ingest/authoring/orchestrator.py: from a source to an extractor script that
-- passed its checks, with repairs, or to the category of a failure.
--
-- The agent, the files that it writes, the registry of loaded scripts and the smoke test are
-- parameters that may answer otherwise after every repair.
pub mod Classified
pub mod Turns
pub mod Repairs
use uk_jamaat_directory.Prelude.{
  ℕ, zero, suc, ◌==◌, String, Bool, true, false, not, Option, none, some, List, [], ◌∷◌, leb,
  if◌then◌else◌,
}
use uk_jamaat_directory.Domain.{
  AuthoringTaskStatus, authoring_task_status_eq, AuthoringFailureCategory,
}
use uk_jamaat_directory.Schedules.Parse.{Text, Unicode, codes, same_text, strip}
use uk_jamaat_directory.Ingest.Texts.{or_absent}
use uk_jamaat_directory.Ingest.DomainPolicy.{
  DomainSettings, is_aggregator_domain, is_umbrella_domain,
}
use uk_jamaat_directory.Ingest.Extract.Scripts.{Parser, check_script_source}
use uk_jamaat_directory.Ingest.Authoring.FailureTaxonomy.{said, classify_failure}
use uk_jamaat_directory.Ingest.Authoring.Retry.{SourceProcessResult}

-- `AgentResult.report`
pub record AgentReport : Type 0 where
  pub status : Option Text
  pub reason : Option Text
  pub script_path : Option Text

-- `run_authoring_agent`: a report, TimeoutError, or another exception.
pub data AgentRun : Type 0 where
  reports : AgentReport → AgentRun
  times_out raises_error : AgentRun

-- What is found at a path that the agent reports; a text comes with its absolute path. Bytes
-- that are no UTF-8 raise.
pub data ScriptFile : Type 0 where
  missing unreadable undecodable : ScriptFile
  source_text : Text → Text → ScriptFile

pub record PreFlightResult : Type 0 where
  pub reachable : Bool
  pub error : Option Text

pub record SmokeReport : Type 0 where
  pub ok : Bool
  pub issues : List Text

-- What a call of code outside comes to: a value, or an exception that nothing catches.
pub data Attempt (A : Type 0) : Type 0 where
  returned : A → Attempt A
  raised : Attempt A

-- The surroundings of one source; a number is that of the repairs so far. `urlparse` in
-- `normalize_domain`, the preflight, the choice of a backend, the loading of the registry and the
-- smoke test may raise.
pub record Workshop : Type 0 where
  pub unicode : Unicode
  pub parse : Parser
  pub domain_settings : Option DomainSettings
  pub domain : Attempt (Option Text)
  pub preflight : Attempt PreFlightResult
  pub is_available : Attempt Bool
  pub max_repair_attempts : ℕ
  pub smoke_test_enabled : Bool
  pub run_agent : ℕ → AgentRun
  pub script_at : ℕ → Text → ScriptFile
  pub is_registered : ℕ → Attempt Bool
  pub smoke_test : ℕ → Attempt SmokeReport

abbrev pub ended : ℕ → AuthoringTaskStatus → Option AuthoringFailureCategory → SourceProcessResult
ended repairs status category = record {
  status = status;
  failure_category = category;
  script_path = none;
  validation_issues = [];
  repair_attempts = repairs;
}

abbrev pub fails : ℕ → AuthoringFailureCategory → SourceProcessResult
fails repairs category = ended repairs AuthoringTaskStatus.failed (some category)

abbrev pub or_text : Option Text → String → Text
or_text none text = codes text
or_text (some reason) text = reason

module _ (w : Workshop) (repairs : ℕ) where
  abbrev pub agent_error : Attempt SourceProcessResult
  agent_error = Attempt.returned (fails repairs AuthoringFailureCategory.agent_error)

  -- The static checks of a script that was read.
  abbrev pub classify_issues : Text → List Text → SourceProcessResult
  classify_issues path [] = record (ended repairs AuthoringTaskStatus.awaiting_review none) {
    script_path = some path;
  }
  classify_issues path (issue ∷ issues) =
      record (fails repairs AuthoringFailureCategory.validation_failed) {
        script_path = some path;
        validation_issues = issue ∷ issues;
      }

  abbrev pub classify_file : ScriptFile → Attempt SourceProcessResult
  classify_file ScriptFile.missing = agent_error
  classify_file ScriptFile.unreadable = agent_error
  classify_file ScriptFile.undecodable = Attempt.raised
  classify_file (ScriptFile.source_text absolute source) =
      Attempt.returned (classify_issues absolute (check_script_source w.parse source))

  abbrev pub classify_authored : Option Text → Attempt SourceProcessResult
  classify_authored none = agent_error
  classify_authored (some path) = classify_file (w.script_at repairs path)

  unfoldable pub classify_status : AgentReport → Text → Attempt SourceProcessResult
  classify_status report status =
      if same_text status (codes "skipped_review")
      then Attempt.returned (ended repairs AuthoringTaskStatus.skipped_review none)
      else if same_text status (codes "failed")
      then Attempt.returned (
          fails repairs (
            classify_failure w.unicode none
              (some (or_text (said report.reason) "agent reported failure (no reason given)")) []
              false))
      else if not (same_text status (codes "authored"))
      then agent_error
      else classify_authored (said report.script_path)

  abbrev pub classify_said_status : AgentReport → Option Text → Attempt SourceProcessResult
  classify_said_status report none = agent_error
  classify_said_status report (some status) =
      classify_status report (strip w.unicode (w.unicode.lower status))

  -- `_classify_agent_result`
  unfoldable pub classify_agent_result : AgentReport → Attempt SourceProcessResult
  classify_agent_result report = classify_said_status report (said report.status)

-- The end of one turn of the loop: a result to return, or one to repair with the issues found.
pub data Turn : Type 0 where
  returns : SourceProcessResult → Turn
  repairable : SourceProcessResult → List Text → Turn
  raises : Turn

abbrev pub not_valid : SourceProcessResult → SourceProcessResult
not_valid r = record r {
  status = AuthoringTaskStatus.failed;
  failure_category = some AuthoringFailureCategory.validation_failed;
}

module _ (w : Workshop) where
  abbrev pub after_smoke : SourceProcessResult → Attempt SmokeReport → Turn
  after_smoke r Attempt.raised = Turn.raises
  after_smoke r (Attempt.returned smoke) =
      if smoke.ok then Turn.returns r else Turn.repairable (not_valid r) smoke.issues

  -- The issues of the static checks, where there is a script to repair.
  abbrev pub after_static : SourceProcessResult → List Text → Option Text → Turn
  after_static r (issue ∷ issues) (some path) = Turn.repairable r (issue ∷ issues)
  after_static r (issue ∷ issues) none = Turn.returns r
  after_static r [] path = Turn.returns r

  -- A script that no loaded extractor comes from fails, and since it has no issues of the static
  -- checks it is returned.
  abbrev pub after_registry : ℕ → SourceProcessResult → Attempt Bool → Turn
  after_registry repairs r Attempt.raised = Turn.raises
  after_registry repairs r (Attempt.returned false) =
      after_static (not_valid r) r.validation_issues r.script_path
  after_registry repairs r (Attempt.returned true) =
      if w.smoke_test_enabled then after_smoke r (w.smoke_test repairs) else Turn.returns r

  unfoldable pub after_report : ℕ → SourceProcessResult → Turn
  after_report repairs r =
      if r.status == AuthoringTaskStatus.awaiting_review
      then after_registry repairs r (w.is_registered repairs)
      else after_static r r.validation_issues r.script_path

module _ (w : Workshop) where
  abbrev pub after_classified : ℕ → Attempt SourceProcessResult → Turn
  after_classified repairs Attempt.raised = Turn.raises
  after_classified repairs (Attempt.returned r) = after_report w repairs r

-- How `_process_source` ends: it returns, or an exception goes through.
pub data ProcessEnd : Type 0 where
  process_returns : SourceProcessResult → ProcessEnd
  process_raises : ProcessEnd

module _ (w : Workshop) where
  -- What follows a turn, given how the loop goes on after a repair.
  abbrev pub after_turn : ℕ → Option ProcessEnd → Turn → Option ProcessEnd
  after_turn repairs repaired (Turn.returns r) = some (process_returns r)
  after_turn repairs repaired Turn.raises = some process_raises
  after_turn repairs repaired (Turn.repairable r issues) =
      if leb w.max_repair_attempts repairs
      then some (process_returns (record r { validation_issues = issues }))
      else repaired

  abbrev pub after_agent : ℕ → Option ProcessEnd → AgentRun → Option ProcessEnd
  after_agent repairs repaired AgentRun.times_out =
      some (process_returns (fails repairs AuthoringFailureCategory.timeout))
  after_agent repairs repaired AgentRun.raises_error = some process_raises
  after_agent repairs repaired (AgentRun.reports report) =
      after_turn repairs repaired
        (after_classified w repairs (classify_agent_result w repairs report))

  -- `while True`, on fuel.
  unfoldable pub repair_loop : ℕ → ℕ → Option ProcessEnd
  repair_loop zero repairs = none
  repair_loop (suc fuel) repairs =
      after_agent repairs (repair_loop fuel (suc repairs)) (w.run_agent repairs)

  abbrev pub preflight_failure : PreFlightResult → SourceProcessResult
  preflight_failure p = fails 0 (
      classify_failure w.unicode (some (or_text (said p.error) "preflight: source unreachable"))
        none [] false)

  -- `_domain_policy_outcome`
  unfoldable pub domain_policy_outcome : Option Text → Option SourceProcessResult
  domain_policy_outcome domain =
      if is_aggregator_domain w.unicode w.domain_settings domain
      then some (fails 0 AuthoringFailureCategory.aggregator)
      else if is_umbrella_domain w.unicode w.domain_settings domain
      then some (
          ended 0 AuthoringTaskStatus.skipped_review
            (some AuthoringFailureCategory.umbrella_review))
      else none

  abbrev pub after_backend : Attempt Bool → Option ProcessEnd
  after_backend Attempt.raised = some process_raises
  after_backend (Attempt.returned false) =
      some (process_returns (fails 0 AuthoringFailureCategory.agent_error))
  after_backend (Attempt.returned true) = repair_loop (suc w.max_repair_attempts) 0

  abbrev pub after_preflight : Attempt PreFlightResult → Option ProcessEnd
  after_preflight Attempt.raised = some process_raises
  after_preflight (Attempt.returned p) =
      if not p.reachable
      then some (process_returns (preflight_failure p))
      else after_backend w.is_available

  abbrev pub after_policy : Option SourceProcessResult → Option ProcessEnd
  after_policy (some r) = some (process_returns r)
  after_policy none = after_preflight w.preflight

  abbrev pub after_domain : Attempt (Option Text) → Option ProcessEnd
  after_domain Attempt.raised = some process_raises
  after_domain (Attempt.returned domain) = after_policy (domain_policy_outcome domain)

  -- `_process_source`, with fuel for the first call of the agent and every repair.
  unfoldable pub process_source : Option ProcessEnd
  process_source = after_domain w.domain
