-- ===== src/Tests/Authoring.antt =====
-- The theorems about the authoring loop and its counters, on a source whose first script imports
-- what it may not.
use uk_jamaat_directory.Prelude.{zero, suc, ◌≡◌, refl, true, false, nat_eq, none, some, [], ◌∷◌}
use uk_jamaat_directory.Domain.{
  AuthoringTaskStatus, AuthoringTaskStatus-discrete, AuthoringFailureCategory,
}
use uk_jamaat_directory.Schedules.Parse.{codes, strip, strip_left, strip_right}
use uk_jamaat_directory.Ingest.Extract.Scripts.{
  Node, check_script_source, nodes_issues, node_issues, import_issue, resolve_module_name,
}
use uk_jamaat_directory.Ingest.Texts.{starts_with}
use uk_jamaat_directory.Ingest.Authoring.Process.{
  AgentRun, Attempt, ScriptFile, Workshop, process_returns, process_source, domain_policy_outcome,
  repair_loop, after_report, classify_agent_result, classify_status,
}
use uk_jamaat_directory.Ingest.Authoring.Summary.{
  begin_source, finish_source, checked_source, empty_summary,
}
use uk_jamaat_directory.Ingest.Authoring.Summary.Accounts.{
  Updates, IsAccounted, Updates-IsAccounted,
}
use uk_jamaat_directory.Ingest.DomainPolicy.{is_aggregator_domain, is_umbrella_domain}
use uk_jamaat_directory.Tests.Parse.{ascii}

-- The first script imports os, the second the contract.
abbrev workshop : Workshop
workshop = record {
  unicode = ascii;
  parse = λ text. some (elim text [
    | [] ↦ Node.import_names (codes "os" ∷ []) ∷ []
    | c ∷ rest ↦
        Node.import_from
          (some (codes "uk_jamaat_directory.ingest.extract.repo_extractors.contract"))
        ∷ []
  ]);
  domain_settings = none;
  domain = Attempt.returned none;
  preflight = Attempt.returned (record { reachable = true; error = none });
  is_available = Attempt.returned true;
  max_repair_attempts = 2;
  smoke_test_enabled = true;
  run_agent = λ repairs. AgentRun.reports (record {
    status = some (codes "authored");
    reason = none;
    script_path = some (codes "s.py");
  });
  script_at =
      λ repairs path. ScriptFile.source_text path (elim repairs [ zero ↦ [] | suc n ↦ codes "x" ]);
  is_registered = λ repairs. Attempt.returned true;
  smoke_test = λ repairs. Attempt.returned (record { ok = true; issues = [] });
}

-- One repair leads to a script for review.
repaired :
    process_source workshop
    ≡ some (
        process_returns (record {
          status = AuthoringTaskStatus.awaiting_review;
          failure_category = none;
          script_path = some (codes "s.py");
          validation_issues = [];
          repair_attempts = 1;
        }))
unfolding process_source domain_policy_outcome repair_loop after_report classify_agent_result
    classify_status check_script_source is_aggregator_domain is_umbrella_domain
    AuthoringTaskStatus-discrete strip strip_right strip_left nodes_issues node_issues import_issue
    resolve_module_name starts_with
repaired = refl

-- One source is filtered out while another is authored.
abbrev updates : Updates 0 (
    finish_source AuthoringTaskStatus.awaiting_review none none (
      checked_source
        (some (record {
          is_skipped = false;
          category = AuthoringFailureCategory.aggregator;
          error = codes "aggregator";
        }))
        (begin_source empty_summary)))
updates = Updates.finishes AuthoringTaskStatus.awaiting_review none none (
    Updates.checks
      (some (record {
        is_skipped = false;
        category = AuthoringFailureCategory.aggregator;
        error = codes "aggregator";
      }))
      (Updates.begins Updates.nothing))

Updates-IsAccounted_example : IsAccounted 0 (
    finish_source AuthoringTaskStatus.awaiting_review none none (
      checked_source
        (some (record {
          is_skipped = false;
          category = AuthoringFailureCategory.aggregator;
          error = codes "aggregator";
        }))
        (begin_source empty_summary)))
Updates-IsAccounted_example = Updates-IsAccounted updates
