-- ===== src/Ingest/Authoring/Process/Turns.antt =====
-- One turn of the loop of repairs (ingest/authoring/orchestrator.py): what it returns or hands on.
use uk_jamaat_directory.Prelude.{
  ℕ, ◌≤◌, ◌≡◌, ◌≢◌, refl, sym, ap, subst, ◌∙◌, ◌==◌, Bool, true, false, inl, inr, Option, none,
  some, List, [], ◌∷◌, arith, Bool-cases, if◌then◌else◌,
}
use uk_jamaat_directory.Domain.{AuthoringTaskStatus, authoring_task_status_eq}
use uk_jamaat_directory.Schedules.Parse.{Text}
use uk_jamaat_directory.Ingest.Authoring.Retry.{SourceProcessResult}
use uk_jamaat_directory.Ingest.Authoring.Retry.Runs.{IsFinished, as_failed}
use uk_jamaat_directory.Ingest.Authoring.Process.{
  SmokeReport, Attempt, AgentRun, ScriptFile, after_classified, after_registry, Workshop, Turn,
  not_valid, after_smoke, after_static, after_report,
}
use uk_jamaat_directory.Ingest.Authoring.Process.Classified.{
  IsClassifiedAttempt, IsChecked, IsClassified,
}

module _ (w : Workshop) where
  -- An exception that something outside raised, at a number of repairs that the settings allow.
  pub data Raises : Type 0 where
    by_domain : w.domain ≡ Attempt.raised → Raises
    by_preflight : w.preflight ≡ Attempt.raised → Raises
    by_backend : w.is_available ≡ Attempt.raised → Raises
    by_agent : (n : ℕ) → n ≤ w.max_repair_attempts → w.run_agent n ≡ AgentRun.raises_error → Raises
    by_file :
        (n : ℕ) (reported : Text)
        → n ≤ w.max_repair_attempts
        → w.script_at n reported ≡ ScriptFile.undecodable
        → Raises
    by_registry : (n : ℕ) → n ≤ w.max_repair_attempts → w.is_registered n ≡ Attempt.raised → Raises
    by_smoke_test : (n : ℕ) → n ≤ w.max_repair_attempts → w.smoke_test n ≡ Attempt.raised → Raises

  -- A script that may be deployed.
  pub record IsPassed (r : SourceProcessResult) : Type 0 where
    pub checked : IsChecked w r
    pub registered : w.is_registered r.repair_attempts ≡ Attempt.returned true
    pub smoke :
        w.smoke_test_enabled ≡ true
        → (report : SmokeReport) × (w.smoke_test r.repair_attempts ≡ Attempt.returned report)
          × (report.ok ≡ true)

  pub record IsSound (r : SourceProcessResult) : Type 0 where
    pub finished : IsFinished r.status
    pub authored : r.status ≡ AuthoringTaskStatus.awaiting_review → IsPassed r
    pub category : r.status ≡ AuthoringTaskStatus.failed → r.failure_category ≢ none
    pub repairs : r.repair_attempts ≤ w.max_repair_attempts

  abbrev pub IsSoundTurn : Turn → Type 0
  IsSoundTurn (Turn.returns r) = IsSound r
  IsSoundTurn Turn.raises = Raises
  IsSoundTurn (Turn.repairable r issues) = IsSound r × (r.status ≡ AuthoringTaskStatus.failed)

  either :
      (b : Bool) (x y : Turn)
      → (b ≡ true → IsSoundTurn x)
      → (b ≡ false → IsSoundTurn y)
      → IsSoundTurn (if b then x else y)
  either true x y f g = f refl
  either false x y f g = g refl

  pub failed-IsSound :
      (r : SourceProcessResult)
      → r.status ≡ AuthoringTaskStatus.failed
      → r.failure_category ≢ none
      → r.repair_attempts ≤ w.max_repair_attempts
      → IsSound r
  failed-IsSound r s c h = record {
    finished = subst IsFinished (sym s) as_failed;
    authored = λ q.
        let k : AuthoringTaskStatus.failed ≡ AuthoringTaskStatus.awaiting_review = sym s ∙ q in cc;
    category = λ q. c;
    repairs = h;
  }

  not_valid-IsSound :
      (r : SourceProcessResult) → r.repair_attempts ≤ w.max_repair_attempts → IsSound (not_valid r)
  not_valid-IsSound r h = failed-IsSound (not_valid r) refl (λ n. cc) h

  after_static-IsSoundTurn :
      (r : SourceProcessResult) (issues : List Text) (path : Option Text)
      → IsSound r
      → r.status ≡ AuthoringTaskStatus.failed
      → IsSoundTurn (after_static w r issues path)
  after_static-IsSoundTurn r [] path s f = s
  after_static-IsSoundTurn r (issue ∷ issues) none s f = s
  after_static-IsSoundTurn r (issue ∷ issues) (some path) s f = (s, f)

  after_smoke-IsSoundTurn :
      (n : ℕ) (r : SourceProcessResult) (smoke : Attempt SmokeReport)
      → n ≤ w.max_repair_attempts
      → r.repair_attempts ≤ w.max_repair_attempts
      → w.smoke_test n ≡ smoke
      → ((report : SmokeReport) → smoke ≡ Attempt.returned report → report.ok ≡ true → IsSound r)
      → IsSoundTurn (after_smoke w r smoke)
  after_smoke-IsSoundTurn n r Attempt.raised few h e s = Raises.by_smoke_test n few e
  after_smoke-IsSoundTurn n r (Attempt.returned smoke) few h e s = elim (Bool-cases smoke.ok) [
    | inl t ↦ rw t (s smoke refl t)
    | inr f ↦ rw f (not_valid-IsSound r h, refl)
  ]

  module _ (repairs : ℕ) (few : repairs ≤ w.max_repair_attempts) (r : SourceProcessResult)
      (c : IsClassified w repairs r) where
    counted_few : r.repair_attempts ≤ w.max_repair_attempts
    counted_few = let k = c.counted in omega arith

    if-IsSound :
        (w.is_registered repairs ≡ Attempt.returned true)
        → (w.smoke_test_enabled ≡ true
            → (report : SmokeReport) × (w.smoke_test repairs ≡ Attempt.returned report)
              × (report.ok ≡ true))
        → IsSound r
    if-IsSound registered smoke = record {
      finished = c.finished;
      authored = λ q. record {
        checked = c.authored q;
        registered = ap w.is_registered c.counted ∙ registered;
        smoke = λ t. let (report, e, k) = smoke t in (report, ap w.smoke_test c.counted ∙ e, k);
      };
      category = c.category;
      repairs = counted_few;
    }

    -- What was authored waits for its deployment; what was skipped or failed stays so.
    not_authored : r.status ≢ AuthoringTaskStatus.awaiting_review → IsSound r
    not_authored n = record {
      finished = c.finished;
      authored = λ q. absurd (n q);
      category = c.category;
      repairs = counted_few;
    }

    static-IsSoundTurn :
        r.status ≢ AuthoringTaskStatus.awaiting_review
        → IsSoundTurn (after_static w r r.validation_issues r.script_path)
    static-IsSoundTurn n = elim c.issues [
      | inl q ↦ subst (λ l. IsSoundTurn (after_static w r l r.script_path)) (sym q) (not_authored n)
      | inr f ↦ after_static-IsSoundTurn r r.validation_issues r.script_path (not_authored n) f
    ]

    after_registry-IsSoundTurn :
        (registered : Attempt Bool)
        → w.is_registered repairs ≡ registered
        → IsSoundTurn (after_registry w repairs r registered)
    after_registry-IsSoundTurn Attempt.raised e = Raises.by_registry repairs few e
    after_registry-IsSoundTurn (Attempt.returned false) e =
        after_static-IsSoundTurn (not_valid r) r.validation_issues r.script_path
          (not_valid-IsSound r counted_few) refl
    after_registry-IsSoundTurn (Attempt.returned true) e =
        either w.smoke_test_enabled _ _
          (λ on.
            after_smoke-IsSoundTurn repairs r (w.smoke_test repairs) few counted_few refl
              (λ report q k. if-IsSound e (λ _. (report, q, k))))
          (λ off. if-IsSound e (λ on. absurd (ground (arith, on, off))))

    pub after_report-IsSoundTurn : IsSoundTurn (after_report w repairs r)
    unfolding after_report
    after_report-IsSoundTurn =
        either (r.status == AuthoringTaskStatus.awaiting_review) _ _
          (λ t. after_registry-IsSoundTurn (w.is_registered repairs) refl)
          (λ f. static-IsSoundTurn (λ q.
            let t =
              (authoring_task_status_eq.beq_iff r.status AuthoringTaskStatus.awaiting_review).1 q in
            absurd (ground (arith, t, f))))

module _ (w : Workshop) (repairs : ℕ) (few : repairs ≤ w.max_repair_attempts) where
  pub after_classified-IsSoundTurn :
      (a : Attempt SourceProcessResult)
      → IsClassifiedAttempt w repairs a
      → IsSoundTurn w (after_classified w repairs a)
  after_classified-IsSoundTurn Attempt.raised c = Raises.by_file repairs c.0 few c.1
  after_classified-IsSoundTurn (Attempt.returned r) c = after_report-IsSoundTurn w repairs few r c
