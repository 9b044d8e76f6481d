-- ===== src/Models/Triples.antt =====
-- What holds of the value and the tables that a session operation returns, if it does not raise.
use uk_jamaat_directory.Prelude.{◌≡◌, refl, ap, ◌∙◌, Bool, true, false}
use uk_jamaat_directory.Models.Session.{Db, Session, Error, Result, ok, err, ◌>>=◌, raise_if}

unfoldable pub Ensures : {A : Type 0} → (A → Db → Type 0) → Result (A × Db) → Type 0
Ensures Q (ok (a, db)) = Q a db
Ensures Q (err e) = Unit

bind_result :
    {A B : Type 0} (P : A → Db → Type 0) (Q : B → Db → Type 0) (k : A → Session B)
    (x : Result (A × Db))
    → Ensures P x
    → ((a : A) (db : Db) → P a db → Ensures Q (k a db))
    → Ensures Q (elim x [ ok (a, db) ↦ k a db | err e ↦ err e ])
unfolding Ensures
bind_result P Q k (ok (a, db)) h f = f a db h
bind_result P Q k (err e) h f = tt

-- The operation after another one, by what the first ensures.
pub Ensures-bind :
    {A B : Type 0} (P : A → Db → Type 0) (Q : B → Db → Type 0) (m : Session A) (k : A → Session B)
    (db : Db)
    → Ensures P (m db)
    → ((a : A) (db' : Db) → P a db' → Ensures Q (k a db'))
    → Ensures Q ((m >>= k) db)
Ensures-bind P Q m k db h f = bind_result P Q k (m db) h f

-- After a test that may raise, the test is false.
pub Ensures-raise_if :
    {B : Type 0} (Q : B → Db → Type 0) (b : Bool) (e : Error) (m : Session B) (db : Db)
    → (b ≡ false → Ensures Q (m db))
    → Ensures Q ((raise_if b e >>= λ _. m) db)
unfolding Ensures
Ensures-raise_if Q true e m db h = tt
Ensures-raise_if Q false e m db h = h refl

-- A weaker statement of the same result.
pub Ensures-map :
    {A : Type 0} (P Q : A → Db → Type 0) (x : Result (A × Db))
    → ((a : A) (db : Db) → P a db → Q a db)
    → Ensures P x
    → Ensures Q x
unfolding Ensures
Ensures-map P Q (ok (a, db)) f h = f a db h
Ensures-map P Q (err e) f h = tt

-- An operation that returns is followed by the next one.
pub bind-ok :
    {A B : Type 0} (m : Session A) (k : A → Session B) (db : Db) {a : A} {db' : Db}
    {y : Result (B × Db)}
    → m db ≡ ok (a, db')
    → k a db' ≡ y
    → (m >>= k) db ≡ y
bind-ok m k db e h = ap (λ x. elim x [ ok (a, db') ↦ k a db' | err e ↦ err e ]) e ∙ h

-- An operation that raises is followed by nothing.
pub bind-err :
    {A B : Type 0} (m : Session A) (k : A → Session B) (db : Db) {e : Error}
    → m db ≡ err e
    → (m >>= k) db ≡ err e
bind-err m k db h = ap (λ x. elim x [ ok (a, db') ↦ k a db' | err e ↦ err e ]) h
