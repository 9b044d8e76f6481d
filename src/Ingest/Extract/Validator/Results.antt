-- ===== src/Ingest/Extract/Validator/Results.antt =====
-- Which results of an extractor script are taken (`check_extractor_result` of
-- ingest/extract/repo_extractors/validator.py).
use uk_jamaat_directory.Prelude.{
  ◌≡◌, ◌↔◌, refl, Bool, true, false, not, ◌||◌, ◌==◌, nat_eq, string_eq, List, [], ◌∷◌, ◌++◌, All,
  arith,
}
use uk_jamaat_directory.Prelude.Int.{int_eq}
use uk_jamaat_directory.Domain.{prayer_eq}
use uk_jamaat_directory.Ingest.Extract.Validator.{
  ExtractorRow, ExtractorResult, ResultIssue, contract_id, same_key, seen_before, check_rows,
  lacks_reason, result_issue_if, check_extractor_result,
}

-- What the validation of a candidate asks of its evidence.
abbrev pub IsGated : ExtractorRow → Type 0
IsGated row = (row.evidence.contract ≡ contract_id) × (row.evidence.gate_passed ≡ true)

-- No two rows are for the same date, prayer and session.
abbrev pub AreDistinct : List ExtractorRow → Type 0
AreDistinct [] = Unit
AreDistinct (row ∷ rows) = All (λ r. same_key r row ≡ false) rows × AreDistinct rows

split_or :
    {A : Type 0} (p q : A → Bool) (xs : List A)
    → All (λ x. (p x || q x) ≡ false) xs ↔ (All (λ x. p x ≡ false) xs × All (λ x. q x ≡ false) xs)
split_or p q [] = (λ _. (tt, tt), λ _. tt)
split_or p q (x ∷ xs) = (
  (λ h.
      let r = (split_or p q xs).0 h.1 in let e = h.0 in ((ground arith, r.0), (ground arith, r.1))),
  (λ h. let a = h.0.0 in let b = h.1.0 in (ground arith, (split_or p q xs).1 (h.0.1, h.1.1))),
)

-- What one row adds to the issues.
row_issues : List ExtractorRow → ExtractorRow → List ResultIssue → List ResultIssue
row_issues seen row rest =
    result_issue_if (seen_before row seen) ResultIssue.duplicate_row
    ++ (result_issue_if (not (row.evidence.contract == contract_id)) ResultIssue.wrong_contract
        ++ (result_issue_if (not row.evidence.gate_passed) ResultIssue.gate_failed ++ rest))

row_issues_none :
    (seen : List ExtractorRow) (row : ExtractorRow) (rest : List ResultIssue)
    → (row_issues seen row rest ≡ []) ↔ ((seen_before row seen ≡ false) × IsGated row × (rest ≡ []))
unfolding row_issues
row_issues_none seen row rest = ground (arith, string_eq.beq_iff row.evidence.contract contract_id)

check_rows_iff :
    (seen rows : List ExtractorRow)
    → (check_rows seen rows ≡ [])
      ↔ (All (λ row. seen_before row seen ≡ false) rows × AreDistinct rows × All IsGated rows)
unfolding check_rows row_issues
check_rows_iff seen [] = (λ _. (tt, tt, tt), λ _. refl)
check_rows_iff seen (row ∷ rows) =
    let ih = check_rows_iff (row ∷ seen) rows in
    let split = split_or (λ r. same_key r row) (λ r. seen_before r seen) rows in
    let here = row_issues_none seen row (check_rows (row ∷ seen) rows) in
    (
      (λ h.
          let (new, gated, rest) = here.0 h in
          let (unseen, distinct, all_gated) = ih.0 rest in
          let (apart, old) = split.0 unseen in ((new, old), (apart, distinct), (gated, all_gated))),
      (λ h. here.1 (h.0.0, h.2.0, ih.1 (split.1 (h.1.0, h.0.1), h.1.1, h.2.1))),
    )

none_seen : (rows : List ExtractorRow) → All (λ row. seen_before row [] ≡ false) rows
none_seen [] = tt
none_seen (row ∷ rows) = (refl, none_seen rows)

issue_none :
    (b : Bool) (issue : ResultIssue) {rest : List ResultIssue}
    → result_issue_if b issue ++ rest ≡ []
    → (b ≡ false) × (rest ≡ [])
issue_none true issue h = cc
issue_none false issue h = (refl, h)

-- The checks take a result exactly if it has rows or a reason for having none, no two rows for the
-- same date, prayer and session, and with every row the contract and the passed gate that the
-- automatic approval of schedules/validation.py asks for.
pub check_extractor_result_iff :
    (result : ExtractorResult)
    → (check_extractor_result result ≡ [])
      ↔ ((lacks_reason result ≡ false) × AreDistinct result.rows × All IsGated result.rows)
unfolding check_extractor_result
check_extractor_result_iff result =
    let rows = check_rows_iff [] result.rows in
    let unseen = none_seen result.rows in
    (
      (λ h.
          let both = issue_none (lacks_reason result) ResultIssue.rows_empty h in
          (both.0, (rows.0 both.1).1, (rows.0 both.1).2)),
      (λ h. rw h.0 (rows.1 (unseen, h.1, h.2))),
    )
