-- ===== src/Ingest/Discovery/Matching/Ranking.antt =====
-- The ranks that `decide_match` of ingest/discovery/matching.py goes by.
use uk_jamaat_directory.Prelude.{
  ℕ, zero, suc, ◌≡◌, sym, subst, true, false, inl, inr, Option, none, some, List, [], ◌∷◌, ◌++◌,
  All, All-map, Member, here, there, append-nil, append_assoc, Bool-cases,
}
use uk_jamaat_directory.Ingest.Discovery.Matching.{
  Floats, ScoredMosqueCandidate, insert_ranked, rank, promote, reordered,
}

-- What IEEE 754 promises of scores, which are not NaN: a total order, and a difference that falls
-- as its second number grows.
pub record IsOrdered (F : Floats) : Type 0 where
  pub total : (x y : F.Float) → F.at_least x y ≡ false → F.at_least y x ≡ true
  pub trans :
      (x y z : F.Float) → F.at_least x y ≡ true → F.at_least y z ≡ true → F.at_least x z ≡ true
  pub falls :
      (x y z : F.Float) → F.at_least y z ≡ true → F.at_least (F.minus x z) (F.minus x y) ≡ true

module _ (F : Floats) (ordered : IsOrdered F) where
  -- No candidate of the list scores higher.
  abbrev pub Tops : F.Float → List (ScoredMosqueCandidate F) → Type 0
  Tops score cs = All (λ (c : ScoredMosqueCandidate F). F.at_least score c.score ≡ true) cs

  abbrev pub IsRanked : List (ScoredMosqueCandidate F) → Type 0
  IsRanked [] = Unit
  IsRanked (c ∷ cs) = Tops c.score cs × IsRanked cs

  insert_ranked-Tops :
      (score : F.Float) (c : ScoredMosqueCandidate F) (cs : List (ScoredMosqueCandidate F))
      → F.at_least score c.score ≡ true
      → Tops score cs
      → Tops score (insert_ranked F c cs)
  unfolding insert_ranked
  insert_ranked-Tops score c [] h t = (h, tt)
  insert_ranked-Tops score c (x ∷ xs) h t = elim (Bool-cases (F.at_least c.score x.score)) [
    | inl a ↦ rw a (h, t)
    | inr b ↦ rw b (t.0, insert_ranked-Tops score c xs h t.1)
  ]

  insert_ranked-IsRanked :
      (c : ScoredMosqueCandidate F) (cs : List (ScoredMosqueCandidate F))
      → IsRanked cs
      → IsRanked (insert_ranked F c cs)
  unfolding insert_ranked
  insert_ranked-IsRanked c [] r = (tt, tt)
  insert_ranked-IsRanked c (x ∷ xs) r = elim (Bool-cases (F.at_least c.score x.score)) [
    | inl a ↦ rw a ((a, All-map _ _ xs (λ y h. ordered.trans c.score x.score y.score a h) r.0), r)
    | inr b ↦ rw b (
      insert_ranked-Tops x.score c xs (ordered.total c.score x.score b) r.0,
      insert_ranked-IsRanked c xs r.1,
    )
  ]

  pub rank-IsRanked : (cs : List (ScoredMosqueCandidate F)) → IsRanked (rank F cs)
  unfolding rank
  rank-IsRanked [] = tt
  rank-IsRanked (c ∷ cs) = insert_ranked-IsRanked c (rank F cs) (rank-IsRanked cs)

  -- Behind the first candidate of the list, the next one scores highest.
  abbrev pub SecondTops : List (ScoredMosqueCandidate F) → Type 0
  SecondTops [] = Unit
  SecondTops (best ∷ []) = Unit
  SecondTops (best ∷ second ∷ rest) = Tops second.score rest

  IsRanked-SecondTops : (cs : List (ScoredMosqueCandidate F)) → IsRanked cs → SecondTops cs
  IsRanked-SecondTops [] r = tt
  IsRanked-SecondTops (c ∷ []) r = tt
  IsRanked-SecondTops (c ∷ d ∷ cs) r = r.1.0

  without :
      {A : Type 0} (P : A → Type 0) (xs : List A) (x : A) (ys : List A)
      → All P (xs ++ x ∷ ys)
      → All P (xs ++ ys)
  without P [] x ys h = h.1
  without P (z ∷ xs) x ys h = (h.0, without P xs x ys h.1)

  promoted-SecondTops :
      (c : ScoredMosqueCandidate F) (passed cs : List (ScoredMosqueCandidate F))
      → IsRanked (passed ++ c ∷ cs)
      → SecondTops (c ∷ (passed ++ cs))
  promoted-SecondTops c [] cs r = IsRanked-SecondTops (c ∷ cs) r
  promoted-SecondTops c (p ∷ ps) cs r =
      without (λ (x : ScoredMosqueCandidate F). F.at_least p.score x.score ≡ true) ps c cs r.0

  promote-SecondTops :
      (idx : ℕ) (passed cs : List (ScoredMosqueCandidate F))
      → IsRanked (passed ++ cs)
      → SecondTops (promote F idx passed cs)
  unfolding promote
  promote-SecondTops idx passed [] r =
      IsRanked-SecondTops passed (subst IsRanked (append-nil passed) r)
  promote-SecondTops zero passed (c ∷ cs) r = promoted-SecondTops c passed cs r
  promote-SecondTops (suc idx) passed (c ∷ cs) r =
      promote-SecondTops idx (passed ++ c ∷ []) cs
        (subst IsRanked (sym (append_assoc passed (c ∷ []) cs)) r)

  pub reordered-SecondTops :
      (o : Option ℕ) (cs : List (ScoredMosqueCandidate F))
      → IsRanked cs
      → SecondTops (reordered F o cs).0
  reordered-SecondTops none cs r = IsRanked-SecondTops cs r
  reordered-SecondTops (some idx) cs r = promote-SecondTops idx [] cs r

module _ (F : Floats) where
  -- Two lists of the same candidates.
  pub record Same (xs ys : List (ScoredMosqueCandidate F)) : Type 0 where
    pub to : (c : ScoredMosqueCandidate F) → Member c xs → Member c ys
    pub from : (c : ScoredMosqueCandidate F) → Member c ys → Member c xs

  pub Same-trans :
      {xs ys zs : List (ScoredMosqueCandidate F)} → Same xs ys → Same ys zs → Same xs zs
  Same-trans s t = record { to = λ c m. t.to c (s.to c m); from = λ c m. s.from c (t.from c m) }

  Same-refl : (xs : List (ScoredMosqueCandidate F)) → Same xs xs
  Same-refl xs = record { to = λ c m. m; from = λ c m. m }

  under :
      {a x : ScoredMosqueCandidate F} {xs ys : List (ScoredMosqueCandidate F)}
      → (Member a xs → Member a ys)
      → Member a (x ∷ xs)
      → Member a (x ∷ ys)
  under f (here q) = here q
  under f (there m) = there (f m)

  Same-cons :
      (c : ScoredMosqueCandidate F) {xs ys : List (ScoredMosqueCandidate F)}
      → Same xs ys
      → Same (c ∷ xs) (c ∷ ys)
  Same-cons c s = record { to = λ d m. under (s.to d) m; from = λ d m. under (s.from d) m }

  swap :
      {a x y : ScoredMosqueCandidate F} {xs : List (ScoredMosqueCandidate F)}
      → Member a (x ∷ y ∷ xs)
      → Member a (y ∷ x ∷ xs)
  swap (here q) = there (here q)
  swap (there (here q)) = here q
  swap (there (there m)) = there (there m)

  Same-swap :
      (x y : ScoredMosqueCandidate F) (xs : List (ScoredMosqueCandidate F))
      → Same (x ∷ y ∷ xs) (y ∷ x ∷ xs)
  Same-swap x y xs = record { to = λ c m. swap m; from = λ c m. swap m }

  insert_ranked-Same :
      (c : ScoredMosqueCandidate F) (cs : List (ScoredMosqueCandidate F))
      → Same (c ∷ cs) (insert_ranked F c cs)
  unfolding insert_ranked
  insert_ranked-Same c [] = Same-refl (c ∷ [])
  insert_ranked-Same c (x ∷ xs) = elim (Bool-cases (F.at_least c.score x.score)) [
    | inl a ↦ rw a (Same-refl (c ∷ x ∷ xs))
    | inr b ↦ rw b (Same-trans (Same-swap c x xs) (Same-cons x (insert_ranked-Same c xs)))
  ]

  pub rank-Same : (cs : List (ScoredMosqueCandidate F)) → Same cs (rank F cs)
  unfolding rank
  rank-Same [] = Same-refl []
  rank-Same (c ∷ cs) = Same-trans (Same-cons c (rank-Same cs)) (insert_ranked-Same c (rank F cs))

  moved :
      (c : ScoredMosqueCandidate F) (passed cs : List (ScoredMosqueCandidate F))
      → Same (passed ++ c ∷ cs) (c ∷ (passed ++ cs))
  moved c [] cs = Same-refl (c ∷ cs)
  moved c (p ∷ ps) cs = Same-trans (Same-cons p (moved c ps cs)) (Same-swap p c (ps ++ cs))

  promote-Same :
      (idx : ℕ) (passed cs : List (ScoredMosqueCandidate F))
      → Same (passed ++ cs) (promote F idx passed cs)
  unfolding promote
  promote-Same idx passed [] =
      subst (Same (passed ++ [])) (append-nil passed) (Same-refl (passed ++ []))
  promote-Same zero passed (c ∷ cs) = moved c passed cs
  promote-Same (suc idx) passed (c ∷ cs) =
      subst (λ l. Same l (promote F idx (passed ++ c ∷ []) cs)) (append_assoc passed (c ∷ []) cs)
        (promote-Same idx (passed ++ c ∷ []) cs)

  pub reordered-Same :
      (o : Option ℕ) (cs : List (ScoredMosqueCandidate F)) → Same cs (reordered F o cs).0
  reordered-Same none cs = Same-refl cs
  reordered-Same (some idx) cs = promote-Same idx [] cs
