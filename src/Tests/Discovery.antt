-- ===== src/Tests/Discovery.antt =====
-- The theorem about linked records, with scores in whole hundredths.
use uk_jamaat_directory.Prelude.{
  ℕ, ◌+◌, ◌-◌, ◌/◌, ◌≡◌, refl, true, false, none, some, List, [], ◌∷◌, leb, arith,
}
use uk_jamaat_directory.Ingest.Discovery.Scoring.{
  score_mosque_candidate, score_postcode, score_name, score_aliases, score_domain, score_city,
  score_distance, penalise_parent_org,
}
use uk_jamaat_directory.Models.Rows.{Uuid}
use uk_jamaat_directory.Ingest.Discovery.Matching.{
  Floats, MatchDecision, Reason, ScoredMosqueCandidate, decide_match, rank, insert_ranked,
  search_override, promote, decide_best, highest_name_ratio, fuzzy_ratio_from_reason,
  count_strong_signals, is_strong_signal, is_identity_signal,
}
use uk_jamaat_directory.Ingest.Discovery.Matching.Ranking.{IsOrdered}
use uk_jamaat_directory.Ingest.Discovery.Matching.Linking.{IsLinked, decide_match_auto_link}

abbrev whole : Floats
whole = record { Float = ℕ; at_least = λ a b. leb b a; minus = λ a b. a - b; hundredths = λ n. n }

whole-IsOrdered : IsOrdered whole
whole-IsOrdered = record {
  total = λ x y h. ground arith;
  trans = λ x y z h k. ground arith;
  falls = λ x y z h. ground arith;
}

abbrev scored : Uuid → ℕ → List Reason → ScoredMosqueCandidate whole
scored id score reasons = record { mosque_id = id; score = score; reasons = reasons }

-- A near one with no name, and a named one that takes its place.
abbrev found : List (ScoredMosqueCandidate whole)
found =
    scored 1 45 (Reason.distance 40 ∷ [])
    ∷ scored 2 90 (Reason.postcode_match ∷ Reason.name_ratio 95 ∷ Reason.domain_match ∷ [])
    ∷ []

linked : (decide_match whole found).decision ≡ MatchDecision.auto_link
unfolding decide_match rank insert_ranked search_override promote decide_best highest_name_ratio
    fuzzy_ratio_from_reason count_strong_signals is_strong_signal is_identity_signal
linked = refl

decide_match_auto_link_example :
    (best : ScoredMosqueCandidate whole) × IsLinked whole whole-IsOrdered found
      (decide_match whole found)
      best
decide_match_auto_link_example = decide_match_auto_link whole whole-IsOrdered found linked

-- A pair of one postcode, name and domain: 0.35 + 0.30 + 0.25.
strong_pair :
    score_mosque_candidate whole
      (λ a b. a + b)
      (λ n. n / 100)
      (record {
        mosque_id = 2;
        same_postcode = true;
        name_ratio = 9500;
        alias_ratios = [];
        same_domain = true;
        same_city = false;
        distance_m = none;
        allows_geo_identity = true;
        is_parent_org = false;
      })
    ≡ some (
        scored 2 90 (
          Reason.postcode_match
          ∷ Reason.name_ratio 95
          ∷ Reason.domain_match
          ∷ Reason.signals 3
          ∷ []))
unfolding score_mosque_candidate score_postcode score_name score_aliases score_domain score_city
    score_distance penalise_parent_org
strong_pair = refl
