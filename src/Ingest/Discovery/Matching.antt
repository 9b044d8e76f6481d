-- ===== src/Ingest/Discovery/Matching.antt =====
-- `decide_match` of ingest/discovery/matching.py, with the results of records.py.
--
-- A reason is data with the number that its text prints. Floating-point numbers are a parameter:
-- their comparison, their subtraction and the literals of the source, in hundredths.
pub mod Ranking
pub mod Linking
use uk_jamaat_directory.Prelude.{
  ℕ, zero, suc, Bool, true, false, not, ◌&&◌, Option, none, some, List, [], ◌∷◌, ◌++◌, ltb, leb,
  take, any, length, if◌then◌else◌,
}
use uk_jamaat_directory.Models.Rows.{Uuid}

pub record Floats : Type 1 where
  pub Float : Type 0
  -- `x >= y`
  pub at_least : Float → Float → Bool
  pub minus : Float → Float → Float
  pub hundredths : ℕ → Float

pub data MatchDecision : Type 0 where
  auto_link create_needs_review needs_review : MatchDecision

pub data Reason : Type 0 where
  postcode_match domain_match city_match geo_identity parent_org_source : Reason
  name_ratio alias_ratio distance signals : ℕ → Reason
  no_existing_mosque_candidates ambiguous_multiple_candidates name_evidence_override
        high_score_insufficient_signals below_auto_link_threshold :
      Reason

abbrev pub strong_name_ratio : ℕ
strong_name_ratio = 92

abbrev pub name_override_ratio : ℕ
name_override_ratio = 85

unfoldable pub fuzzy_ratio_from_reason : Reason → Option ℕ
fuzzy_ratio_from_reason (Reason.name_ratio n) = some n
fuzzy_ratio_from_reason (Reason.alias_ratio n) = some n
fuzzy_ratio_from_reason _ = none

abbrev greater : ℕ → ℕ → ℕ
greater a b = if leb a b then b else a

abbrev greater_of : Option ℕ → ℕ → ℕ
greater_of none best = best
greater_of (some n) best = greater n best

unfoldable pub highest_name_ratio : List Reason → ℕ
highest_name_ratio [] = 0
highest_name_ratio (r ∷ rs) = greater_of (fuzzy_ratio_from_reason r) (highest_name_ratio rs)

abbrev is_strong_ratio : Option ℕ → Bool
is_strong_ratio none = false
is_strong_ratio (some n) = leb strong_name_ratio n

-- `reason.startswith(("postcode_", "distance_", "geo_identity_"))` or `startswith("domain_")`, or a
-- strong ratio.
unfoldable pub is_strong_signal : Reason → Bool
is_strong_signal Reason.postcode_match = true
is_strong_signal (Reason.distance n) = true
is_strong_signal Reason.geo_identity = true
is_strong_signal Reason.domain_match = true
is_strong_signal r = is_strong_ratio (fuzzy_ratio_from_reason r)

unfoldable pub is_identity_signal : Reason → Bool
is_identity_signal Reason.domain_match = true
is_identity_signal Reason.geo_identity = true
is_identity_signal r = is_strong_ratio (fuzzy_ratio_from_reason r)

unfoldable pub count_strong_signals : List Reason → ℕ
count_strong_signals [] = 0
count_strong_signals (r ∷ rs) =
    if is_strong_signal r then suc (count_strong_signals rs) else count_strong_signals rs

abbrev pub has_identity_signal : List Reason → Bool
has_identity_signal reasons = any is_identity_signal reasons

module _ (F : Floats) where
  pub record ScoredMosqueCandidate : Type 0 where
    pub mosque_id : Uuid
    pub score : F.Float
    pub reasons : List Reason

  pub record DiscoveryMatch : Type 0 where
    pub decision : MatchDecision
    pub mosque_id : Option Uuid
    pub score : F.Float
    pub reasons : List Reason
    pub alternatives : List ScoredMosqueCandidate

  -- `sorted(candidates, key=score, reverse=True)`, which keeps the order of equal scores.
  unfoldable pub insert_ranked :
      ScoredMosqueCandidate → List ScoredMosqueCandidate → List ScoredMosqueCandidate
  insert_ranked c [] = c ∷ []
  insert_ranked c (x ∷ xs) =
      let rest = insert_ranked c xs in if F.at_least c.score x.score then c ∷ x ∷ xs else x ∷ rest

  unfoldable pub rank : List ScoredMosqueCandidate → List ScoredMosqueCandidate
  rank [] = []
  rank (c ∷ cs) = insert_ranked c (rank cs)

  -- The loop of `_name_evidence_override` over the ranks from `idx` on.
  unfoldable pub search_override : ScoredMosqueCandidate → ℕ → List ScoredMosqueCandidate → Option ℕ
  search_override top idx [] = none
  search_override top idx (alt ∷ alts) =
      let rest = search_override top (suc idx) alts in
      if ltb (highest_name_ratio alt.reasons) name_override_ratio
      then rest
      else if not (F.at_least (F.hundredths 25) (F.minus top.score alt.score))
      then none
      else some idx

  abbrev pub name_override : List ScoredMosqueCandidate → Option ℕ
  name_override [] = none
  name_override (top ∷ []) = none
  name_override (top ∷ alt ∷ alts) =
      if leb name_override_ratio (highest_name_ratio top.reasons)
      then none
      else search_override top 1 (alt ∷ alts)

  -- `ranked.insert(0, ranked.pop(idx))`
  unfoldable pub promote :
      ℕ → List ScoredMosqueCandidate → List ScoredMosqueCandidate → List ScoredMosqueCandidate
  promote idx passed [] = passed
  promote zero passed (c ∷ cs) = c ∷ (passed ++ cs)
  promote (suc idx) passed (c ∷ cs) = promote idx (passed ++ c ∷ []) cs

  abbrev pub reordered : Option ℕ → List ScoredMosqueCandidate → List ScoredMosqueCandidate × Bool
  reordered none ranked = (ranked, false)
  reordered (some idx) ranked = (promote idx [] ranked, true)

  abbrev pub is_close : F.Float → ScoredMosqueCandidate → Bool
  is_close best c =
      F.at_least c.score (F.hundredths 50)
      && not (F.at_least (F.minus best c.score) (F.hundredths 10))

  abbrev pub is_ambiguous : F.Float → List ScoredMosqueCandidate → Bool
  is_ambiguous best [] = false
  is_ambiguous best (second ∷ rest) = is_close best second

  abbrev pub noted : Bool → List Reason → List Reason
  noted true reasons = Reason.name_evidence_override ∷ reasons
  noted false reasons = reasons

  abbrev pub noted_last : Bool → List Reason
  noted_last true = Reason.ambiguous_multiple_candidates ∷ Reason.name_evidence_override ∷ []
  noted_last false = Reason.ambiguous_multiple_candidates ∷ []

  abbrev review : ScoredMosqueCandidate → List ScoredMosqueCandidate → List Reason → DiscoveryMatch
  review best rest reasons = record {
    decision = MatchDecision.needs_review;
    mosque_id = none;
    score = best.score;
    reasons = reasons;
    alternatives = take 3 (best ∷ rest);
  }

  -- The tests on the best candidate.
  unfoldable pub decide_best :
      Bool → ScoredMosqueCandidate → List ScoredMosqueCandidate → DiscoveryMatch
  decide_best overridden best rest =
      if is_ambiguous best.score rest
      then review best rest (noted_last overridden)
      else if F.at_least best.score (F.hundredths 75)
          && (leb 2 (count_strong_signals best.reasons) && has_identity_signal best.reasons)
      then record {
        decision = MatchDecision.auto_link;
        mosque_id = some best.mosque_id;
        score = best.score;
        reasons = best.reasons;
        alternatives = [];
      }
      else if F.at_least best.score (F.hundredths 75)
      then review best rest
          (noted overridden (Reason.high_score_insufficient_signals ∷ best.reasons))
      else if F.at_least best.score (F.hundredths 25)
      then review best rest (noted overridden (Reason.below_auto_link_threshold ∷ best.reasons))
      else record {
        decision = MatchDecision.create_needs_review;
        mosque_id = none;
        score = best.score;
        reasons = Reason.below_auto_link_threshold ∷ best.reasons;
        alternatives = [];
      }

  abbrev pub decide_ranked : List ScoredMosqueCandidate × Bool → DiscoveryMatch
  decide_ranked ([], overridden) = record {
    decision = MatchDecision.create_needs_review;
    mosque_id = none;
    score = F.hundredths 0;
    reasons = Reason.no_existing_mosque_candidates ∷ [];
    alternatives = [];
  }
  decide_ranked (best ∷ rest, overridden) = decide_best overridden best rest

  -- Of no candidates the rank is empty, which is the first return.
  unfoldable pub decide_match : List ScoredMosqueCandidate → DiscoveryMatch
  decide_match candidates =
      let ranked = rank candidates in decide_ranked (reordered (name_override ranked) ranked)
