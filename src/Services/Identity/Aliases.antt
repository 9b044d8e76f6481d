-- ===== src/Services/Identity/Aliases.antt =====
-- The aliases of a merge (services/admin_identity.py): the canonical mosque is known by all the names
-- of both, and its aliases stay unique.
use uk_jamaat_directory.Prelude.{
  ◌≡◌, ◌≢◌, refl, sym, ap, ◌∙◌, Bool, true, false, ◌==◌, nat_eq, ◌||◌, List, [], ◌∷◌, ◌++◌, any,
  select, All, All-append, any-append, arith, Bool-cases, inl, inr, append-nil, subst, beq_refl,
}
use uk_jamaat_directory.Prelude.Tables.{select-append}
use uk_jamaat_directory.Models.Rows.{Uuid, MosqueAlias}
use uk_jamaat_directory.Schedules.Parse.{Text, same_text}
use uk_jamaat_directory.Ingest.Normalize.{Words, normalize_mosque_name}
use uk_jamaat_directory.Ingest.DomainPolicy.Subdomains.{same_text_refl, same_text-eq}
use uk_jamaat_directory.Services.Identity.{
  is_named, given_alias, move_aliases, same_alias, aliases_unique,
}

-- A row that meets the second test among those that fail the first.
any-false-All :
    {A : Type 0} (P : A → Type 0) (p q : A → Bool) (rows : List A)
    → ((a : A) → P a → p a ≡ false → q a ≡ false)
    → All P rows
    → any p rows ≡ false
    → any q rows ≡ false
any-false-All P p q [] f h k = refl
any-false-All P p q (a ∷ rows) f h k =
    let here : q a ≡ false = f a h.0 (ground arith) in
    ground (arith, here, any-false-All P p q rows f h.1 (ground arith))

module _ (canonical : Uuid) where
  pub known_under :
      (name normalized : Text) (kept : List MosqueAlias)
      → any (is_named canonical normalized) kept ≡ true
      → same_text normalized name ≡ true
      → any (is_named canonical name) kept ≡ true
  known_under name normalized kept t same =
      subst (λ (n : Text). any (is_named canonical n) kept ≡ true)
        (same_text-eq normalized name same) t

  -- Under which names the canonical mosque is found: its own, and those of the aliases that are moved.
  pub is_named-move_aliases :
      (name : Text) (moved kept : List MosqueAlias)
      → any (is_named canonical name) (move_aliases canonical moved kept)
        ≡ (any (is_named canonical name) kept || any (λ a. same_text a.normalized_alias name) moved)
  unfolding move_aliases
  is_named-move_aliases name [] kept = ground arith
  is_named-move_aliases name (a ∷ moved) kept =
      elim (Bool-cases (any (is_named canonical a.normalized_alias) kept)) [
        | inl t ↦ rw t (
            ground (
              arith,
              is_named-move_aliases name moved kept,
              known_under name a.normalized_alias kept t,
            ))
        | inr f ↦ rw f (
            ground (
              arith,
              is_named-move_aliases name moved (kept ++ given_alias canonical a ∷ []),
              any-append (is_named canonical name) kept (given_alias canonical a ∷ []),
              beq_refl canonical,
            ))
      ]

  -- No other mosque gains or loses an alias.
  pub move_aliases-others :
      (m : Uuid) (moved kept : List MosqueAlias)
      → m ≢ canonical
      → select (λ a. a.mosque_id == m) (move_aliases canonical moved kept)
        ≡ select (λ a. a.mosque_id == m) kept
  unfolding move_aliases
  move_aliases-others m [] kept d = refl
  move_aliases-others m (a ∷ moved) kept d =
      elim (Bool-cases (any (is_named canonical a.normalized_alias) kept)) [
        | inl t ↦ rw t (move_aliases-others m moved kept d)
        | inr f ↦
            let off : (canonical == m) ≡ false = ground (arith, d) in
            rw f (
              move_aliases-others m moved (kept ++ given_alias canonical a ∷ []) d
              ∙ (rw (select-append (λ a. a.mosque_id == m) kept (given_alias canonical a ∷ []), off)
                  (append-nil (select (λ a. a.mosque_id == m) kept))))
      ]

aliases_unique-append :
    (rows : List MosqueAlias) (b : MosqueAlias)
    → aliases_unique rows ≡ true
    → any (λ a. same_alias a b) rows ≡ false
    → aliases_unique (rows ++ b ∷ []) ≡ true
unfolding aliases_unique
aliases_unique-append [] b u f = refl
aliases_unique-append (a ∷ rows) b u f =
    ground (arith, any-append (same_alias a) rows (b ∷ []), aliases_unique-append rows b)

module _ (words : Words) where
  -- The normal form that is stored is that of the text.
  abbrev pub IsNormal : MosqueAlias → Type 0
  IsNormal a = a.normalized_alias ≡ normalize_mosque_name words a.alias

  differ :
      (a b : MosqueAlias)
      → IsNormal a
      → IsNormal b
      → is_named b.mosque_id b.normalized_alias a ≡ false
      → same_alias a b ≡ false
  differ a b n normal g = elim (Bool-cases (same_text a.alias b.alias)) [
    | inl t ↦
        let q : a.normalized_alias ≡ b.normalized_alias =
          n ∙ ap (normalize_mosque_name words) (same_text-eq a.alias b.alias t) ∙ sym normal in
        let r : same_text a.normalized_alias b.normalized_alias ≡ true =
          subst (λ (x : Text). same_text a.normalized_alias x ≡ true) q
            (same_text_refl a.normalized_alias) in
        ground (arith, r, g)
    | inr f ↦ ground arith
  ]

  -- A new alias whose normal form its mosque lacks has a text that its mosque lacks.
  pub unnamed-aliases_unique :
      (b : MosqueAlias) (rows : List MosqueAlias)
      → IsNormal b
      → All IsNormal rows
      → any (is_named b.mosque_id b.normalized_alias) rows ≡ false
      → aliases_unique rows ≡ true
      → aliases_unique (rows ++ b ∷ []) ≡ true
  unnamed-aliases_unique b rows normal all_normal f u = aliases_unique-append rows b u (
      any-false-All IsNormal (is_named b.mosque_id b.normalized_alias) (λ a. same_alias a b) rows
        (λ a n g. differ a b n normal g) all_normal f)

  pub move_aliases-aliases_unique :
      (canonical : Uuid) (moved kept : List MosqueAlias)
      → All IsNormal moved
      → All IsNormal kept
      → aliases_unique kept ≡ true
      → (aliases_unique (move_aliases canonical moved kept) ≡ true)
        × All IsNormal (move_aliases canonical moved kept)
  unfolding move_aliases
  move_aliases-aliases_unique canonical [] kept n k u = (u, k)
  move_aliases-aliases_unique canonical (a ∷ moved) kept n k u =
      elim (Bool-cases (any (is_named canonical a.normalized_alias) kept)) [
        | inl t ↦ rw t (move_aliases-aliases_unique canonical moved kept n.1 k u)
        | inr f ↦ rw f (
            move_aliases-aliases_unique canonical moved (kept ++ given_alias canonical a ∷ []) n.1
              (All-append IsNormal kept (given_alias canonical a ∷ []) k (n.0, tt))
              (unnamed-aliases_unique (given_alias canonical a) kept n.0 k f u))
      ]
