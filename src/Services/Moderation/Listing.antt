-- ===== src/Services/Moderation/Listing.antt =====
-- The pages of `list_candidates` of services/schedule_moderation.py.
use uk_jamaat_directory.Prelude.{
  suc, ◌≤◌, ◌≡◌, refl, ap, Bool, List, [], ◌∷◌, select, length, leb, All,
}
use uk_jamaat_directory.Models.Calendar.{Date}
use uk_jamaat_directory.Models.Rows.{ScheduleCandidate}

-- Latest date first.
abbrev pub IsDescending : List ScheduleCandidate → Type 0
IsDescending [] = Unit
IsDescending (c ∷ cs) = All (λ (x : ScheduleCandidate). x.date ≤ c.date) cs × IsDescending cs

-- A run of ORDER BY date DESC on some rows: the same rows, each as often, latest date first.
pub record IsOrder (order : List ScheduleCandidate → List ScheduleCandidate)
    (rows : List ScheduleCandidate) : Type 0 where
  pub descending : IsDescending (order rows)
  pub same :
      (p : ScheduleCandidate → Bool) → length (select p (order rows)) ≡ length (select p rows)

abbrev pub dates : List ScheduleCandidate → List Date
dates [] = []
dates (c ∷ cs) = c.date ∷ dates cs

-- Rows on or after a date.
abbrev from_date : Date → ScheduleCandidate → Bool
from_date d c = leb d c.date

length-dates : (cs : List ScheduleCandidate) → length (dates cs) ≡ length cs
length-dates [] = refl
length-dates (c ∷ cs) = ap suc (length-dates cs)
