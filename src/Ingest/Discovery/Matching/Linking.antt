-- ===== src/Ingest/Discovery/Matching/Linking.antt =====
-- When a record is linked to a mosque with no review (`decide_match` of
-- ingest/discovery/matching.py).
use uk_jamaat_directory.Prelude.{
  ◌≤◌, ◌≡◌, refl, sym, Bool, true, false, not, ◌&&◌, ◌⊎◌, inl, inr, some, List, [], ◌∷◌, leb,
  leb→le, All, All-map, Member, here, there, Member-All, Bool-cases, &&-eq-true, arith,
}
use uk_jamaat_directory.Ingest.Discovery.Matching.{
  Floats, MatchDecision, ScoredMosqueCandidate, DiscoveryMatch, count_strong_signals,
  has_identity_signal, rank, name_override, reordered, is_close, is_ambiguous, decide_best,
  decide_ranked, decide_match,
}
use uk_jamaat_directory.Ingest.Discovery.Matching.Ranking.{
  IsOrdered, SecondTops, rank-IsRanked, reordered-SecondTops, Same, Same-trans, rank-Same,
  reordered-Same,
}

module _ (F : Floats) (ordered : IsOrdered F) where
  -- Why a record is linked to a candidate.
  pub record IsLinked (cs : List (ScoredMosqueCandidate F)) (m : DiscoveryMatch F)
      (best : ScoredMosqueCandidate F) : Type 0 where
    pub listed : Member best cs
    pub mosque : m.mosque_id ≡ some best.mosque_id
    pub score : F.at_least best.score (F.hundredths 75) ≡ true
    pub strong : 2 ≤ count_strong_signals best.reasons
    pub identity : has_identity_signal best.reasons ≡ true
    pub alone :
        (c : ScoredMosqueCandidate F) → Member c cs → (c ≡ best) ⊎ (is_close F best.score c ≡ false)

  abbrev qualifies : ScoredMosqueCandidate F → Bool
  qualifies best =
      F.at_least best.score (F.hundredths 75)
      && (leb 2 (count_strong_signals best.reasons) && has_identity_signal best.reasons)

  decide_best-linked :
      (overridden : Bool) (best : ScoredMosqueCandidate F) (rest : List (ScoredMosqueCandidate F))
      → let m = decide_best F overridden best rest in
        (m.decision ≡ MatchDecision.auto_link)
        → (is_ambiguous F best.score rest ≡ false)
          × (qualifies best ≡ true)
          × (m.mosque_id ≡ some best.mosque_id)
  unfolding decide_best
  decide_best-linked overridden best rest h = elim (Bool-cases (is_ambiguous F best.score rest)) [
    | inl a ↦ let k : MatchDecision.needs_review ≡ MatchDecision.auto_link = rw a at h in cc
    | inr a ↦ elim (Bool-cases (qualifies best)) [
      | inl q ↦ rw (a, q) (refl, refl, refl)
      | inr n ↦ elim (Bool-cases (F.at_least best.score (F.hundredths 75))) [
        | inl t ↦
            let k : MatchDecision.needs_review ≡ MatchDecision.auto_link = rw (a, n, t) at h in cc
        | inr f ↦ elim (Bool-cases (F.at_least best.score (F.hundredths 25))) [
          | inl t ↦
              let k : MatchDecision.needs_review ≡ MatchDecision.auto_link = rw (a, n, f, t) at h in
              cc
          | inr g ↦
              let k : MatchDecision.create_needs_review ≡ MatchDecision.auto_link =
                rw (a, n, f, g) at h in
              cc
        ]
      ]
    ]
  ]

  wide_of : {a b : Bool} → a ≡ true → (a && not b) ≡ false → b ≡ true
  wide_of {a} {b} h k = ground arith

  -- A candidate below one that is not close is not close.
  not_close :
      (best : F.Float) (second c : ScoredMosqueCandidate F)
      → F.at_least second.score c.score ≡ true
      → is_close F best second ≡ false
      → is_close F best c ≡ false
  not_close best second c h far =
      let half = ordered.trans second.score c.score (F.hundredths 50) h in
      let gap =
        ordered.trans (F.minus best c.score) (F.minus best second.score) (F.hundredths 10)
          (ordered.falls best second.score c.score h) in
      elim (Bool-cases (F.at_least c.score (F.hundredths 50))) [
        | inr low ↦ rw low refl
        | inl high ↦
            let wide : F.at_least (F.minus best second.score) (F.hundredths 10) ≡ true =
              wide_of (half high) far in
            rw (high, gap wide) refl
      ]

  none_close :
      (best : ScoredMosqueCandidate F) (rest : List (ScoredMosqueCandidate F))
      → SecondTops F ordered (best ∷ rest)
      → is_ambiguous F best.score rest ≡ false
      → All (λ (c : ScoredMosqueCandidate F). is_close F best.score c ≡ false) rest
  none_close best [] t h = tt
  none_close best (second ∷ rest) t h =
      (h, All-map _ _ rest (λ c k. not_close best.score second c k h) t)

  head_or_tail :
      (best : ScoredMosqueCandidate F) (rest : List (ScoredMosqueCandidate F))
      → All (λ (c : ScoredMosqueCandidate F). is_close F best.score c ≡ false) rest
      → (c : ScoredMosqueCandidate F) → Member c (best ∷ rest)
      → (c ≡ best) ⊎ (is_close F best.score c ≡ false)
  head_or_tail best rest far c (here q) = inl (sym q)
  head_or_tail best rest far c (there m) =
      inr (Member-All (λ (c : ScoredMosqueCandidate F). is_close F best.score c ≡ false) m far)

  decide_ranked-IsLinked :
      (cs : List (ScoredMosqueCandidate F)) (p : List (ScoredMosqueCandidate F) × Bool)
      → Same F cs p.0
      → SecondTops F ordered p.0
      → (decide_ranked F p).decision ≡ MatchDecision.auto_link
      → (best : ScoredMosqueCandidate F) × IsLinked cs (decide_ranked F p) best
  decide_ranked-IsLinked cs ([], overridden) s t h = cc
  decide_ranked-IsLinked cs (best ∷ rest, overridden) s t h =
      let (clear, q, m) = decide_best-linked overridden best rest h in
      let (score, signals) = &&-eq-true (F.at_least best.score (F.hundredths 75)) _ q in
      let (strong, identity) = &&-eq-true (leb 2 (count_strong_signals best.reasons)) _ signals in
      (
        best,
        record {
          listed = s.from best (here refl);
          mosque = m;
          score = score;
          strong = leb→le 2 (count_strong_signals best.reasons) strong;
          identity = identity;
          alone = λ c n. head_or_tail best rest (none_close best rest t clear) c (s.to c n);
        },
      )

  -- Where scores are ordered as floating-point numbers are, a record is linked with no review only
  -- to one of its candidates, which has a score of 0.75 or more, two strong signals and one of
  -- identity, while no other candidate of 0.5 or more scores within 0.1 of it.
  pub decide_match_auto_link :
      (cs : List (ScoredMosqueCandidate F))
      → (decide_match F cs).decision ≡ MatchDecision.auto_link
      → (best : ScoredMosqueCandidate F) × IsLinked cs (decide_match F cs) best
  unfolding decide_match
  decide_match_auto_link cs h =
      let o = name_override F (rank F cs) in
      decide_ranked-IsLinked cs (reordered F o (rank F cs))
        (Same-trans F (rank-Same F cs) (reordered-Same F o (rank F cs)))
        (reordered-SecondTops F ordered o (rank F cs) (rank-IsRanked F ordered cs)) h
