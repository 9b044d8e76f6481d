-- ===== src/Prelude/Tables.antt =====
-- Rows that are rewritten one after another in a table with distinct keys: the loop has the effect
-- of one map over the table.
use Prim.Native.Nat.{suc}
use native.Mathlib.Omega.{arith}
use mathlib.Core.Path.{◌≡◌, refl, sym, ap, ◌∙◌}
use mathlib.Core.Logic.{inl, inr}
use mathlib.Core.Bool.{Bool, true, false}
use mathlib.Core.Option.{Option, none, some}
use mathlib.Core.List.{List, [], ◌∷◌, ◌++◌, map}
use uk_jamaat_directory.Prelude.Tests.{if◌then◌else◌, Bool-cases, Option-cases}
use uk_jamaat_directory.Prelude.Equality.{Eq, ◌==◌, beq_refl, beq_sym}
use uk_jamaat_directory.Prelude.Lists.{
  any, select, length, length-append, update_where, update_where_none, Member, here, there,
  any-false-Member, Member-select, map-Member,
}
use uk_jamaat_directory.Prelude.Dict.{
  Distinct, Distinct-select, find, find-none, find-Member, key_dropped,
}

module _ {ℓ} {A K : Type ℓ} ⦃e : Eq K⦄ (key : A → K) where
  -- The row takes the place of the row with its key.
  abbrev pub save : A → List A → List A
  save a = update_where (λ r. key r == key a) (λ _. a)

  abbrev pub save_some : Option A → List A → List A
  save_some none xs = xs
  save_some (some a) xs = save a xs

module _ {ℓ} {A K : Type ℓ} ⦃e : Eq K⦄ (key : A → K) (new : A → Option A) where
  abbrev pub save_all : List A → List A → List A
  save_all [] xs = xs
  save_all (c ∷ cs) xs = save_all cs (save_some key (new c) xs)

  abbrev pub or_old : Option A → A → A
  or_old none x = x
  or_old (some c) x = c

  abbrev replaced : Option A → A → A
  replaced none x = x
  replaced (some c) x = or_old (new c) x

  module _ (keeps : (a b : A) → new a ≡ some b → key b ≡ key a) where
    save_all_none : (cs : List A) → save_all cs [] ≡ []
    save_all_none [] = refl
    save_all_none (c ∷ cs) = elim (Option-cases (new c)) [
      | inl n ↦ rw n (save_all_none cs)
      | inr (b, s) ↦ rw s (save_all_none cs)
    ]

    -- One row of the table, under all the writes.
    abbrev save_row : List A → A → A
    save_row [] x = x
    save_row (c ∷ cs) x =
        save_row cs (elim (new c) [ none ↦ x | some b ↦ if key x == key b then b else x ])

    save_all_cons :
        (cs : List A) (x : A) (xs : List A) → save_all cs (x ∷ xs) ≡ save_row cs x ∷ save_all cs xs
    save_all_cons [] x xs = refl
    save_all_cons (c ∷ cs) x xs = elim (Option-cases (new c)) [
      | inl n ↦ rw n (save_all_cons cs x xs)
      | inr (b, s) ↦ rw s (save_all_cons cs (if key x == key b then b else x) (save key b xs))
    ]

    save_row_eq :
        (cs : List A) (x : A) → Distinct key cs → save_row cs x ≡ replaced (find key (key x) cs) x
    save_row_eq [] x d = refl
    save_row_eq (c ∷ cs) x d = elim (Bool-cases (key c == key x)) [
      | inl t ↦
          let q : key c ≡ key x = (e.beq_iff (key c) (key x)).0 t in
          let gone : any (λ y. key y == key x) cs ≡ false = rw q at d.0 in
          elim (Option-cases (new c)) [
            | inl n ↦
                rw (n, t)
                  (rw n
                    (save_row_eq cs x d.1 ∙ ap (λ o. replaced o x) (find-none key (key x) cs gone)))
            | inr (b, s) ↦
                let r : key b ≡ key x = keeps c b s ∙ q in
                rw (s, t)
                  (rw s (
                    rw (r, beq_refl (key x))
                      (save_row_eq cs b d.1
                        ∙ ap (λ o. replaced o b) (find-none key (key b) cs (rw r gone)))))
          ]
      | inr f ↦ elim (Option-cases (new c)) [
        | inl n ↦ rw (n, f) (save_row_eq cs x d.1)
        | inr (b, s) ↦
            let r : (key x == key b) ≡ false = rw (keeps c b s) (beq_sym (key x) (key c) ∙ f) in
            rw (s, f) (rw r (save_row_eq cs x d.1))
      ]
    ]

    save_all-map : (cs xs : List A) → save_all cs xs ≡ map (save_row cs) xs
    save_all-map cs [] = save_all_none cs
    save_all-map cs (x ∷ xs) =
        save_all_cons cs x xs ∙ ap (λ l. save_row cs x ∷ l) (save_all-map cs xs)

    save_row-select :
        (p : A → Bool) (xs : List A) (x : A)
        → Distinct key xs
        → Member x xs
        → save_row (select p xs) x ≡ (if p x then or_old (new x) x else x)
    save_row-select p xs x d m =
        save_row_eq (select p xs) x (Distinct-select key p xs d) ∙ (elim (Bool-cases (p x)) [
          | inl t ↦ rw t (rw (find-Member key (Distinct-select key p xs d) (Member-select p m t)))
          | inr f ↦ rw f (rw (find-none key (key x) (select p xs) (key_dropped key p d m f)))
        ])

    -- Writing the new version of each selected row is a map over the table.
    pub save_all-select :
        (p : A → Bool) (xs : List A)
        → Distinct key xs
        → save_all (select p xs) xs ≡ map (λ x. if p x then or_old (new x) x else x) xs
    save_all-select p xs d =
        save_all-map (select p xs) xs ∙ map-Member xs (λ x m. save_row-select p xs x d m)

module _ {ℓ} {A : Type ℓ} where
  pub select-append :
      (p : A → Bool) (xs ys : List A) → select p (xs ++ ys) ≡ select p xs ++ select p ys
  select-append p [] ys = refl
  select-append p (x ∷ xs) ys = elim (Bool-cases (p x)) [
    | inl t ↦ rw t (ap (λ l. x ∷ l) (select-append p xs ys))
    | inr n ↦ rw n (select-append p xs ys)
  ]

  head_or {κ} :
      {C : Type κ} {a x : A} {xs : List A} → (x ≡ a → C) → (Member a xs → C) → Member a (x ∷ xs) → C
  head_or f g (here q) = f q
  head_or f g (there m) = g m

  pub of_select : (p : A → Bool) {a : A} (xs : List A) → Member a (select p xs) → Member a xs
  of_select p [] m = m
  of_select p {a} (x ∷ xs) m = elim (Bool-cases (p x)) [
    | inl t ↦
        let m' : Member a (x ∷ select p xs) = rw t at m in
        head_or (λ q. here q) (λ n. there (of_select p xs n)) m'
    | inr n ↦ there (of_select p xs (rw n at m))
  ]

  -- Only one row: nothing stands before it and nothing behind it.
  alone : (a : A) (xs ys : List A) → xs ++ a ∷ ys ≡ a ∷ [] → (xs ≡ []) × (ys ≡ [])
  alone a [] [] h = (refl, refl)
  alone a [] (y ∷ ys) h = let q : suc (suc (length ys)) ≡ 1 = ap length h in absurd (omega arith)
  alone a (x ∷ xs) ys h =
      let q : suc (length (xs ++ a ∷ ys)) ≡ 1 = ap length h in
      absurd (omega (arith, length-append xs (a ∷ ys)))

module _ {ℓ} {A K : Type ℓ} ⦃e : Eq K⦄ (key : A → K) where
  -- A row's place in a table, where an update by the row's key puts another row.
  pub record Split (a : A) (xs : List A) : Type ℓ where
    pub before : List A
    pub after : List A
    pub whole : xs ≡ before ++ a ∷ after
    pub put : (b : A) → update_where (λ x. key x == key a) (λ _. b) xs ≡ before ++ b ∷ after

  pub Distinct-Split : {a : A} {xs : List A} → Distinct key xs → Member a xs → Split a xs
  Distinct-Split {a} d (here {x = x} {xs = xs} q) = record {
    before = [];
    after = xs;
    whole = rw q;
    put = λ b.
        let gone : any (λ y. key y == key a) xs ≡ false = rw q at d.0 in
        rw (q, beq_refl (key a)) (ap (λ l. b ∷ l) (update_where_none _ _ xs gone));
  }
  Distinct-Split {a} d (there {x = x} {xs = xs} m) =
      let rest = Distinct-Split d.1 m in
      let other : (key a == key x) ≡ false = any-false-Member (λ y. key y == key x) m d.0 in
      record {
        before = x ∷ rest.before;
        after = rest.after;
        whole = ap (λ l. x ∷ l) rest.whole;
        put = λ b. rw (beq_sym (key x) (key a) ∙ other) (ap (λ l. x ∷ l) (rest.put b));
      }

module _ {ℓ} {A K : Type ℓ} ⦃e : Eq K⦄ (key : A → K) {a : A} {xs : List A} (p : A → Bool)
    (s : Split key a xs) where
  -- The only row that a query selects gives way to another.
  pub select-put_one :
      (b : A)
      → p a ≡ true
      → select p xs ≡ a ∷ []
      → select p (update_where (λ x. key x == key a) (λ _. b) xs) ≡ (if p b then b ∷ [] else [])
  select-put_one b t one =
      let parts : select p s.before ++ a ∷ select p s.after ≡ a ∷ [] =
        sym (rw (s.whole, select-append p s.before (a ∷ s.after), t) refl) ∙ one in
      let none_left = alone a (select p s.before) (select p s.after) parts in
      rw (s.put b, select-append p s.before (b ∷ s.after), none_left.0, none_left.1)

  -- What a query does not select, before and after, changes nothing for it.
  pub select-put_other :
      (b : A)
      → p a ≡ false
      → p b ≡ false
      → select p (update_where (λ x. key x == key a) (λ _. b) xs) ≡ select p xs
  select-put_other b f g =
      let whole : select p xs ≡ select p s.before ++ select p s.after =
        rw (s.whole, select-append p s.before (a ∷ s.after), f) refl in
      rw (s.put b, select-append p s.before (b ∷ s.after), g) (sym whole)
