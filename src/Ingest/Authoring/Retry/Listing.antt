-- ===== src/Ingest/Authoring/Retry/Listing.antt =====
-- What a limit leaves of the sources that a run takes up (ingest/authoring/orchestrator.py).
use uk_jamaat_directory.Prelude.{
  ℕ, zero, suc, ◌-◌, ◌≡◌, ◌≤◌, refl, sym, ap, ◌∙◌, false, Option, none, some, List, [], ◌∷◌, map,
  select, take, leb, arith, Bool-cases, inl, inr,
}
use uk_jamaat_directory.Models.Rows.{Uuid, MosqueSource}
use uk_jamaat_directory.Ingest.Authoring.Retry.{
  RetryPolicy, SourceRow, is_queried, is_eligible, is_full, collect, list_candidate_sources,
}

module _ (policy : RetryPolicy) where
  -- All sources that a run may take up.
  abbrev pub eligible_sources : List SourceRow → List MosqueSource
  eligible_sources rows = map (λ (row : SourceRow). row.source) (select (is_eligible policy) rows)

  -- `take` of at least one.
  abbrev pub take_some : {A : Type 0} → ℕ → List A → List A
  take_some zero xs = take 1 xs
  take_some (suc n) xs = take (suc n) xs

  minus_zero : (n : ℕ) → n - 0 ≡ n
  minus_zero n = omega arith

  abbrev pub limited : {A : Type 0} → Option ℕ → Option Uuid → List A → List A
  limited none source_id sources = sources
  limited (some limit) (some id) sources = sources
  limited (some limit) none sources = take_some limit sources

  collect_all :
      (limit : Option ℕ) (source_id : Option Uuid)
      → ((n : ℕ) → is_full limit source_id n ≡ false)
      → (count : ℕ) (rows : List SourceRow)
      → collect policy limit source_id count rows ≡ eligible_sources rows
  unfolding collect
  collect_all limit source_id endless count [] = refl
  collect_all limit source_id endless count (row ∷ rows) =
      elim (Bool-cases (is_eligible policy row)) [
        | inl t ↦
            rw (t, endless (suc count))
              (ap (λ l. row.source ∷ l) (collect_all limit source_id endless (suc count) rows))
        | inr f ↦ rw f (collect_all limit source_id endless count rows)
      ]

  take_some_none : {A : Type 0} (n : ℕ) → take_some {A = A} n [] ≡ []
  take_some_none zero = refl
  take_some_none (suc n) = refl

  take_some_one : {A : Type 0} (n : ℕ) (x : A) (xs : List A) → n ≤ 1 → take_some n (x ∷ xs) ≡ x ∷ []
  take_some_one zero x xs h = refl
  take_some_one (suc zero) x xs h = refl
  take_some_one (suc (suc n)) x xs h = absurd (omega arith)

  take_some_more :
      {A : Type 0} (n k : ℕ) (x : A) (xs : List A)
      → n ≡ suc k
      → 1 ≤ k
      → take_some n (x ∷ xs) ≡ x ∷ take_some k xs
  take_some_more n zero x xs e h = absurd (omega arith)
  take_some_more n (suc k) x xs e h = rw e refl

  collect_limited :
      (limit count : ℕ) (rows : List SourceRow)
      → collect policy (some limit) none count rows
        ≡ take_some (limit - count) (eligible_sources rows)
  unfolding collect
  collect_limited limit count [] = sym (take_some_none (limit - count))
  collect_limited limit count (row ∷ rows) = elim (Bool-cases (is_eligible policy row)) [
    | inl t ↦ elim (Bool-cases (leb limit (suc count))) [
      | inl last ↦ rw (t, last) (sym (take_some_one (limit - count) _ _ (ground arith)))
      | inr more ↦
          let smaller : limit - count ≡ suc (limit - suc count) = ground arith in
          rw (t, more)
            (ap (λ l. row.source ∷ l) (collect_limited limit (suc count) rows)
              ∙ sym (take_some_more (limit - count) (limit - suc count) _ _ smaller (ground arith)))
    ]
    | inr f ↦ rw f (collect_limited limit count rows)
  ]

  -- Without a limit, or for one source, a run takes up every eligible source of the query. With a
  -- limit it takes up the first ones, at least one of them even where the limit is 0.
  pub list_candidate_sources_limit :
      (rows : List SourceRow) (limit : Option ℕ) (source_id : Option Uuid)
      → let sources = eligible_sources (select (is_queried source_id) rows) in
        list_candidate_sources source_id limit policy rows ≡ limited limit source_id sources
  unfolding list_candidate_sources
  list_candidate_sources_limit rows none source_id =
      collect_all none source_id (λ n. refl) 0 (select (is_queried source_id) rows)
  list_candidate_sources_limit rows (some limit) (some id) =
      collect_all (some limit) (some id) (λ n. refl) 0 (select (is_queried (some id)) rows)
  list_candidate_sources_limit rows (some limit) none =
      let sources = eligible_sources (select (is_queried none) rows) in
      collect_limited limit 0 (select (is_queried none) rows)
      ∙ ap (λ n. take_some n sources) (minus_zero limit)
