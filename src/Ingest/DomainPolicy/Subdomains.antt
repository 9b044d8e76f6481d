-- ===== src/Ingest/DomainPolicy/Subdomains.antt =====
-- The verdict on a domain covers its subdomains (ingest/domain_policy.py).
use uk_jamaat_directory.Prelude.{
  ◌≡◌, refl, sym, ◌∙◌, nat_eq, String, Bool, true, Option, some, List, [], ◌∷◌, ◌++◌, map, any,
  arith, beq_refl, Bool-cases, inl, inr,
}
use uk_jamaat_directory.Schedules.Parse.{Text, Unicode, codes, same_text}
use uk_jamaat_directory.Ingest.Texts.{ends_with, dot, strip_dots}
use uk_jamaat_directory.Ingest.DomainPolicy.{
  DomainSettings, aggregator_domains, umbrella_review_domains, extra_of, is_within, is_within_any,
  matches_domains, is_aggregator_domain, is_umbrella_domain,
}

pub same_text_refl : (text : Text) → same_text text text ≡ true
same_text_refl [] = refl
same_text_refl (c ∷ text) = rw (beq_refl c) (same_text_refl text)

pub same_text-eq : (a b : Text) → same_text a b ≡ true → a ≡ b
same_text-eq [] [] h = refl
same_text-eq [] (d ∷ b) h = cc
same_text-eq (c ∷ a) [] h = cc
same_text-eq (c ∷ a) (d ∷ b) h =
    let e : c ≡ d = ground arith in let r : a ≡ b = same_text-eq a b (ground arith) in cc

ends_with_refl : (text : Text) → ends_with text text ≡ true
unfolding ends_with
ends_with_refl [] = refl
ends_with_refl (c ∷ text) = rw (same_text_refl (c ∷ text)) refl

ends_with-append :
    (front back text : Text) → ends_with back text ≡ true → ends_with back (front ++ text) ≡ true
unfolding ends_with
ends_with-append [] back text h = h
ends_with-append (c ∷ front) back text h =
    let r = ends_with-append front back text h in ground arith

-- A name below a host.
abbrev pub below : Text → Text → Text
below label host = label ++ dot ∷ host

is_within-below :
    (label host domain : Text)
    → is_within host domain ≡ true
    → is_within (below label host) domain ≡ true
unfolding ends_with
is_within-below label host domain h = elim (Bool-cases (same_text host domain)) [
  | inl same ↦
      let q = same_text-eq host domain same in
      let r : ends_with (dot ∷ domain) (below label host) ≡ true =
        ends_with-append label (dot ∷ domain) (dot ∷ host) (rw q (ends_with_refl (dot ∷ domain))) in
      ground arith
  | inr other ↦
      let deep : ends_with (dot ∷ domain) host ≡ true = ground arith in
      let r : ends_with (dot ∷ domain) (below label host) ≡ true =
        ends_with-append label (dot ∷ domain) (dot ∷ host) (ground arith) in
      ground arith
]

any_mono :
    {A : Type 0} (p q : A → Bool) (xs : List A)
    → ((x : A) → p x ≡ true → q x ≡ true)
    → any p xs ≡ true
    → any q xs ≡ true
any_mono p q [] h k = cc
any_mono p q (x ∷ xs) h k = elim (Bool-cases (p x)) [
  | inl t ↦ rw (h x t) refl
  | inr f ↦ let r = any_mono p q xs h (ground arith) in ground arith
]

is_within_any-below :
    (domains : List Text) (label host : Text)
    → is_within_any domains host ≡ true
    → is_within_any domains (below label host) ≡ true
is_within_any-below domains label [] h = cc
is_within_any-below domains [] (c ∷ host) h =
    any_mono _ _ domains (λ d k. is_within-below [] (c ∷ host) d k) h
is_within_any-below domains (a ∷ label) (c ∷ host) h =
    any_mono _ _ domains (λ d k. is_within-below (a ∷ label) (c ∷ host) d k) h

-- A host as the matching reads it: in lower case, with no dot at its ends.
abbrev pub IsPlain : Unicode → Text → Type 0
IsPlain u host = strip_dots (u.lower host) ≡ host

plain_aggregator :
    (u : Unicode) (settings : Option DomainSettings) (host : Text)
    → IsPlain u host
    → is_aggregator_domain u settings (some host)
      ≡ matches_domains u host aggregator_domains
          (extra_of (λ (s : DomainSettings). s.extra_aggregator_domains) settings)
unfolding is_aggregator_domain matches_domains
plain_aggregator u settings [] plain = rw plain refl
plain_aggregator u settings (c ∷ host) plain = refl

plain_umbrella :
    (u : Unicode) (settings : Option DomainSettings) (host : Text)
    → IsPlain u host
    → is_umbrella_domain u settings (some host)
      ≡ matches_domains u host umbrella_review_domains
          (extra_of (λ (s : DomainSettings). s.extra_umbrella_domains) settings)
unfolding is_umbrella_domain matches_domains
plain_umbrella u settings [] plain = rw plain refl
plain_umbrella u settings (c ∷ host) plain = refl

module _ (u : Unicode) (label host : Text) (plain : IsPlain u host)
    (deep : IsPlain u (below label host)) where
  matches_domains-below :
      (domains : List String) (extra : List Text)
      → matches_domains u host domains extra ≡ true
      → matches_domains u (below label host) domains extra ≡ true
  unfolding matches_domains
  matches_domains-below domains extra h =
      rw deep
        (is_within_any-below (map codes domains ++ map u.lower extra) label host (rw plain at h))

  -- Under any settings, what holds of a host in plain form holds of every plain host below it: below
  -- an aggregator all is aggregator, and below an umbrella site all is umbrella.
  pub domain_policy_below :
      (settings : Option DomainSettings)
      → (is_aggregator_domain u settings (some host) ≡ true
          → is_aggregator_domain u settings (some (below label host)) ≡ true)
        × (is_umbrella_domain u settings (some host) ≡ true
            → is_umbrella_domain u settings (some (below label host)) ≡ true)
  domain_policy_below settings = (
    (λ h.
        plain_aggregator u settings (below label host) deep
        ∙ matches_domains-below aggregator_domains _
            (sym (plain_aggregator u settings host plain) ∙ h)),
    (λ h.
        plain_umbrella u settings (below label host) deep
        ∙ matches_domains-below umbrella_review_domains _
            (sym (plain_umbrella u settings host plain) ∙ h)),
  )
