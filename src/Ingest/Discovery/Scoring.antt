-- ===== src/Ingest/Discovery/Scoring.antt =====
-- score_mosque_candidate of ingest/discovery/matching.py: what the signals of a pair are worth.
--
-- What a record and a mosque have in common, by the normal forms of their columns, the ratios of
-- their names and their distance, is given; so are the sum of two floating-point numbers and the
-- nearest integer.
use uk_jamaat_directory.Prelude.{
  ℕ, ◌+◌, Bool, not, ◌&&◌, Option, none, some, List, [], ◌∷◌, ◌++◌, ltb, if◌then◌else◌,
}
use uk_jamaat_directory.Models.Rows.{Uuid}
use uk_jamaat_directory.Ingest.Discovery.Matching.{
  Floats, Reason, ScoredMosqueCandidate, name_override_ratio, highest_name_ratio,
}

module _ (F : Floats) (plus : F.Float → F.Float → F.Float) (rounded : F.Float → ℕ) where
  -- A record and a mosque, compared.
  pub record Comparison : Type 0 where
    pub mosque_id : Uuid
    pub same_postcode : Bool
    pub name_ratio : F.Float
    pub alias_ratios : List F.Float
    pub same_domain : Bool
    pub same_city : Bool
    pub distance_m : Option F.Float
    pub allows_geo_identity : Bool
    pub is_parent_org : Bool

  -- The score in floating-point numbers, the count of signals and the reasons so far.
  pub record Tally : Type 0 where
    pub score : F.Float
    pub signals : ℕ
    pub reasons : List Reason

  abbrev scored : ℕ → ℕ → List Reason → Tally → Tally
  scored hundredths signals reasons t = record {
    score = plus t.score (F.hundredths hundredths);
    signals = t.signals + signals;
    reasons = t.reasons ++ reasons;
  }

  unfoldable pub score_postcode : Bool → Tally → Tally
  score_postcode same t = if same then scored 35 1 (Reason.postcode_match ∷ []) t else t

  unfoldable pub score_name : F.Float → Tally → Tally
  score_name ratio t =
      if F.at_least ratio (F.hundredths 9200)
      then scored 30 1 (Reason.name_ratio (rounded ratio) ∷ []) t
      else if F.at_least ratio (F.hundredths 8500)
      then scored 15 0 (Reason.name_ratio (rounded ratio) ∷ []) t
      else t

  -- The loop ends at the first strong alias.
  unfoldable pub score_aliases : List F.Float → Tally → Tally
  score_aliases [] t = t
  score_aliases (ratio ∷ ratios) t =
      let rest = score_aliases ratios t in
      if F.at_least ratio (F.hundredths 9200)
      then scored 20 1 (Reason.alias_ratio (rounded ratio) ∷ []) t
      else rest

  unfoldable pub score_domain : Bool → Tally → Tally
  score_domain same t = if same then scored 25 1 (Reason.domain_match ∷ []) t else t

  unfoldable pub score_city : Bool → Tally → Tally
  score_city same t = if same then scored 10 0 (Reason.city_match ∷ []) t else t

  -- `_geo_score`, added; a distance beyond 500 m adds nothing.
  abbrev near : F.Float → ℕ → ℕ → List Reason → Tally → Tally
  near m hundredths signals reasons t =
      scored hundredths signals (Reason.distance (rounded m) ∷ reasons) t

  abbrev within : F.Float → ℕ → Bool
  within m metres = F.at_least (F.hundredths metres) m

  unfoldable pub score_distance : Option F.Float → Bool → Tally → Tally
  score_distance none allows t = t
  score_distance (some m) allows t =
      if within m 2500
      then (if allows then near m 75 2 (Reason.geo_identity ∷ []) t else near m 25 1 [] t)
      else if within m 5000
      then (if allows then near m 45 1 [] t else near m 20 0 [] t)
      else if within m 10000
      then (if allows then near m 35 1 [] t else near m 20 0 [] t)
      else if within m 15000
      then (if allows then near m 25 1 [] t else near m 15 0 [] t)
      else if within m 50000
      then (if allows then near m 15 0 [] t else near m 10 0 [] t)
      else t

  unfoldable pub penalise_parent_org : Bool → Tally → Tally
  penalise_parent_org is_parent t =
      if is_parent && ltb (highest_name_ratio t.reasons) name_override_ratio
      then record t {
        score = F.minus t.score (F.hundredths 20);
        reasons = t.reasons ++ Reason.parent_org_source ∷ [];
      }
      else t

  abbrev pub candidate_of : Uuid → Tally → Option (ScoredMosqueCandidate F)
  candidate_of mosque_id t =
      if not (F.at_least t.score (F.hundredths 25))
      then none
      else some (record {
        mosque_id = mosque_id;
        score = if F.at_least (F.hundredths 100) t.score then t.score else F.hundredths 100;
        reasons = t.reasons ++ Reason.signals t.signals ∷ [];
      })

  abbrev no_signals : Tally
  no_signals = record { score = F.hundredths 0; signals = 0; reasons = [] }

  unfoldable pub score_mosque_candidate : Comparison → Option (ScoredMosqueCandidate F)
  score_mosque_candidate c = candidate_of c.mosque_id (
      penalise_parent_org c.is_parent_org (
        score_distance c.distance_m c.allows_geo_identity (
          score_city c.same_city (
            score_domain c.same_domain (
              score_aliases c.alias_ratios
                (score_name c.name_ratio (score_postcode c.same_postcode no_signals)))))))
