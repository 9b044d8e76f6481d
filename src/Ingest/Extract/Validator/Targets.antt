-- ===== src/Ingest/Extract/Validator/Targets.antt =====
-- Which addresses an extractor script may fetch (`check_target_url` and `check_extractor` of
-- ingest/extract/repo_extractors/validator.py).
use uk_jamaat_directory.Prelude.{
  string_eq, ◌≡◌, ◌≢◌, ◌↔◌, refl, String, true, false, ◌⊎◌, inl, inr, Option, none, some, List, [],
  ◌∷◌, ◌++◌, All, All-map, contains, arith, Bool-cases, if◌then◌else◌,
}
use uk_jamaat_directory.Schedules.Parse.{Text}
use uk_jamaat_directory.Ingest.Texts.{Web, or_empty}
use uk_jamaat_directory.Ingest.DomainPolicy.{
  is_within, is_aggregator_url, is_umbrella_url, is_trusted_widget_url,
}
use uk_jamaat_directory.Ingest.Extract.Validator.{
  TargetIssue, is_web_scheme, check_host, check_host_of, check_target_url, ExtractorTarget,
  ExtractorIssue, Capabilities, check_targets, check_extractor, no_targets_issue, url_issues,
  issue_if,
}

module _ (web : Web) where
  -- The host of a target, as the check reads it.
  abbrev pub target_host : Text → Text
  target_host url = web.unicode.lower (or_empty (web.urlparse url).hostname)

  pub record IsAllowed (url : Text) (allowed_domain : Option Text) : Type 0 where
    pub scheme : is_web_scheme (web.urlparse url).scheme ≡ true
    pub host : target_host url ≢ []
    pub not_aggregator : is_aggregator_url web none url ≡ false
    pub not_umbrella : is_umbrella_url web none url ≡ false
    pub own_or_trusted :
        (is_trusted_widget_url web none url ≡ true)
        ⊎ ((domain : Text) × (allowed_domain ≡ some domain)
            × (is_within (target_host url) (web.unicode.lower domain) ≡ true))

  abbrev Holds : Text → Text → Option Text → Type 0
  Holds url host allowed_domain =
      (is_aggregator_url web none url ≡ false)
      × (is_umbrella_url web none url ≡ false)
      × ((is_trusted_widget_url web none url ≡ true)
          ⊎ ((domain : Text) × (allowed_domain ≡ some domain)
              × (is_within host (web.unicode.lower domain) ≡ true)))

  abbrev own : Text → Option Text → Option TargetIssue
  own host allowed_domain = elim allowed_domain [
    | none ↦ some TargetIssue.no_allowed_domain
    | some domain ↦
        if is_within host (web.unicode.lower domain) then none else some TargetIssue.outside_domain
  ]

  own_iff :
      (host : Text) (allowed_domain : Option Text)
      → (own host allowed_domain ≡ none) ↔ (
          (domain : Text) × (allowed_domain ≡ some domain)
          × (is_within host (web.unicode.lower domain) ≡ true))
  own_iff host none = (λ h. cc, λ h. let e = h.1 in cc)
  own_iff host (some domain) = elim (Bool-cases (is_within host (web.unicode.lower domain))) [
    | inl t ↦ (λ h. (domain, refl, t), λ h. rw t refl)
    | inr f ↦ (
      (λ h. let k : some TargetIssue.outside_domain ≡ none = rw f at h in cc),
      (λ h.
          let e = h.1 in
          let q : domain ≡ h.0 = cc in
          let k : is_within host (web.unicode.lower domain) ≡ true = rw q h.2 in cc),
    )
  ]

  check_host_iff :
      (url host : Text) (allowed_domain : Option Text)
      → (check_host web url host allowed_domain ≡ none) ↔ Holds url host allowed_domain
  unfolding check_host
  check_host_iff url host allowed_domain = elim (Bool-cases (is_aggregator_url web none url)) [
    | inl a ↦ rw a (λ h. cc, λ h. cc h.0)
    | inr a ↦ elim (Bool-cases (is_umbrella_url web none url)) [
      | inl b ↦ rw (a, b) (λ h. cc, λ h. cc h.1)
      | inr b ↦ elim (Bool-cases (is_trusted_widget_url web none url)) [
        | inl t ↦ rw (a, b, t) (λ h. (refl, refl, inl refl), λ h. refl)
        | inr t ↦
            let o = own_iff host allowed_domain in
            rw (a, b, t)
              (
                (λ h. (refl, refl, inr (o.0 h))),
                (λ h. elim h.2 [ inl u ↦ absurd (ground arith) | inr u ↦ o.1 u ]),
              )
      ]
    ]
  ]

  check_host_of_iff :
      (url host : Text) (allowed_domain : Option Text)
      → (check_host_of web url host allowed_domain ≡ none)
        ↔ ((host ≢ []) × Holds url host allowed_domain)
  unfolding check_host_of
  check_host_of_iff url [] allowed_domain = (λ h. cc, λ h. absurd (h.0 refl))
  check_host_of_iff url (c ∷ host) allowed_domain =
      let i = check_host_iff url (c ∷ host) allowed_domain in
      (λ h. ((λ q. cc), i.0 h), λ h. i.1 h.1)

  -- A target that is not empty may be fetched exactly if its scheme is http or https, it has a host
  -- that is neither an aggregator nor an umbrella site, and the host is a trusted widget host or
  -- lies within the source's own domain. An empty target may not.
  pub check_target_url_iff :
      (url : Text) (allowed_domain : Option Text)
      → (check_target_url web url allowed_domain ≡ none)
        ↔ ((url ≢ []) × IsAllowed url allowed_domain)
  unfolding check_target_url
  check_target_url_iff [] allowed_domain = (λ h. cc, λ h. absurd (h.0 refl))
  check_target_url_iff (c ∷ url) allowed_domain =
      let i = check_host_of_iff (c ∷ url) (target_host (c ∷ url)) allowed_domain in
      elim (Bool-cases (is_web_scheme (web.urlparse (c ∷ url)).scheme)) [
        | inl t ↦
            let forward : check_target_url web (c ∷ url) allowed_domain ≡ none
                → (c ∷ url ≢ []) × IsAllowed (c ∷ url) allowed_domain =
              λ h.
                let k = i.0 (rw t at h) in
                (
                  (λ q. cc),
                  record {
                    scheme = t;
                    host = k.0;
                    not_aggregator = k.1.0;
                    not_umbrella = k.1.1;
                    own_or_trusted = k.1.2;
                  },
                ) in
            (
              forward,
              (λ h.
                  let a = h.1 in
                  rw t (i.1 (a.host, (a.not_aggregator, a.not_umbrella, a.own_or_trusted)))),
            )
        | inr f ↦ (
          (λ h. let k : some TargetIssue.unsupported_scheme ≡ none = rw f at h in cc),
          (λ h. let s = h.1.scheme in absurd (ground arith)),
        )
      ]

  both_empty : {A : Type 0} (xs : List A) {ys : List A} → xs ++ ys ≡ [] → (xs ≡ []) × (ys ≡ [])
  both_empty [] h = (refl, h)
  both_empty (x ∷ xs) h = cc

  no_url_issue : (o : Option TargetIssue) → url_issues o ≡ [] → o ≡ none
  no_url_issue none h = refl
  no_url_issue (some issue) h = cc

  check_targets-IsAllowed :
      (allowed_domain : Option Text) (seen : List String) (targets : List ExtractorTarget)
      → check_targets web allowed_domain seen targets ≡ []
      → All (λ (t : ExtractorTarget). (t.url ≢ []) × IsAllowed t.url allowed_domain) targets
        × All (λ (t : ExtractorTarget). contains t.label seen ≡ false) targets
  unfolding check_targets
  check_targets-IsAllowed allowed_domain seen [] h = (tt, tt)
  check_targets-IsAllowed allowed_domain seen (t ∷ targets) h =
      let label = both_empty (issue_if (contains t.label seen) ExtractorIssue.duplicate_label) h in
      let url = both_empty (url_issues (check_target_url web t.url allowed_domain)) label.1 in
      let rest = check_targets-IsAllowed allowed_domain (t.label ∷ seen) targets url.1 in
      (
        ((check_target_url_iff t.url allowed_domain).0 (no_url_issue _ url.0), rest.0),
        (ground arith, All-map _ _ targets (λ s k. ground arith) rest.1),
      )

  has_targets : (targets : List ExtractorTarget) → no_targets_issue targets ≡ [] → targets ≢ []
  has_targets [] h = cc
  has_targets (t ∷ targets) h = λ q. cc

  -- An extractor that the checks find no issue with has a target, and every one of its targets may
  -- be fetched for its source.
  pub check_extractor-IsAllowed :
      (caps : Capabilities) (targets : List ExtractorTarget) (allowed_domain : Option Text)
      → check_extractor web caps targets allowed_domain ≡ []
      → (targets ≢ [])
        × All (λ (t : ExtractorTarget). (t.url ≢ []) × IsAllowed t.url allowed_domain) targets
  unfolding check_extractor
  check_extractor-IsAllowed caps targets allowed_domain h =
      let some_target = both_empty (no_targets_issue targets) h in
      let checked = both_empty (check_targets web allowed_domain [] targets) some_target.1 in
      (
        has_targets targets some_target.0,
        (check_targets-IsAllowed allowed_domain [] targets checked.0).0,
      )
