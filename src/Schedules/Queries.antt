-- ===== src/Schedules/Queries.antt =====
-- The filters of schedules/publication.py: the WHERE clauses on candidates, whether any filter is
-- given, and which occurrences a filtered publication may replace.
use uk_jamaat_directory.Prelude.{
  ◌==◌, nat_eq, Bool, true, false, not, ◌&&◌, ◌||◌, Option, none, some, leb, ltb, if◌then◌else◌,
}
use uk_jamaat_directory.Models.Calendar.{Date}
use uk_jamaat_directory.Models.Rows.{Uuid, ScheduleCandidate, ScheduleOccurrence}

-- The keyword arguments `source_id`, `mosque_id`, `date_from`, `date_to`.
pub record Filters : Type 0 where
  pub source_id : Option Uuid
  pub mosque_id : Option Uuid
  pub date_from : Option Date
  pub date_to : Option Date

-- A clause that is added only if its argument is given.
abbrev pub given {ℓ} : {A : Type ℓ} → Option A → (A → Bool) → Bool
given none p = true
given (some a) p = p a

-- `column == id` in SQL, where a null column equals nothing.
abbrev pub column_is : Option Uuid → Uuid → Bool
column_is none id = false
column_is (some column) id = column == id

unfoldable pub candidate_filters : Filters → ScheduleCandidate → Bool
candidate_filters f c =
    given f.source_id (λ id. c.source_id == id)
    && (given f.mosque_id (λ id. column_is c.mosque_id id)
        && (given f.date_from (λ d. leb d c.date) && given f.date_to (λ d. leb c.date d)))

abbrev pub is_given {ℓ} : {A : Type ℓ} → Option A → Bool
is_given none = false
is_given (some a) = true

unfoldable pub publish_filters_active : Filters → Bool
publish_filters_active f =
    is_given f.source_id || is_given f.mosque_id || is_given f.date_from || is_given f.date_to

unfoldable pub occurrence_in_replace_scope : Filters → ScheduleOccurrence → Bool
occurrence_in_replace_scope f o =
    if not (publish_filters_active f)
    then true
    else if not (given f.mosque_id (λ id. o.mosque_id == id))
    then false
    else if not (given f.source_id (λ id. o.source_id == id))
    then false
    else if not (given f.date_from (λ d. not (ltb o.date d)))
    then false
    else if not (given f.date_to (λ d. not (ltb d o.date)))
    then false
    else true
