-- ===== src/Services/Identity/Reviews.antt =====
-- services/admin_identity.py: a moderator decides on a proposed match of a source.
use uk_jamaat_directory.Prelude.{
  ◌==◌, nat_eq, String, string_eq, not, Option, none, some, List, [], ◌∷◌, ◌++◌, contains,
  update_where, if◌then◌else◌,
}
use uk_jamaat_directory.Domain.{SourceType}
use uk_jamaat_directory.Models.Calendar.{Instant}
use uk_jamaat_directory.Models.Rows.{Uuid, Mosque, MosqueSource, IdentityMatchReview}
use uk_jamaat_directory.Models.Session.{
  Db, Session, value_error, ◌>>=◌, ◌>>◌, pure, raise, raise_if, gets, modify, get_source,
  get_review,
}
use uk_jamaat_directory.Schedules.Parse.{codes}
use uk_jamaat_directory.Services.Contributions.{require_mosque}
use uk_jamaat_directory.Ingest.Normalize.{Words}
use uk_jamaat_directory.Services.Identity.{ensure_alias, audit_row, add_action}

abbrev found_review : Option IdentityMatchReview → Session IdentityMatchReview
found_review none = raise (value_error "identity review not found")
found_review (some review) = pure review

-- `_require_identity_review`
unfoldable pub require_identity_review : Uuid → Session IdentityMatchReview
require_identity_review id = do review ← gets (get_review id); found_review review

-- The candidates of `_candidate_items`, by id: those of the JSON column that have one and are new.
unfoldable pub further_ids : List Uuid → List (Option Uuid) → List Uuid
further_ids ids [] = ids
further_ids ids (none ∷ rest) = further_ids ids rest
further_ids ids (some id ∷ rest) =
    if contains id ids then further_ids ids rest else further_ids (ids ++ id ∷ []) rest

abbrev proposed_ids : Option Uuid → List Uuid
proposed_ids none = []
proposed_ids (some id) = id ∷ []

-- `_candidate_ids`
unfoldable pub candidate_ids : IdentityMatchReview → List Uuid
candidate_ids review = further_ids (proposed_ids review.proposed_mosque_id) review.candidates

abbrev only : List Uuid → Option Uuid
only (id ∷ []) = some id
only _ = none

-- `_single_candidate_id`
unfoldable pub single_candidate_id : IdentityMatchReview → Option Uuid
single_candidate_id review = only (candidate_ids review)

abbrev or_else : Option Uuid → Option Uuid → Option Uuid
or_else none other = other
or_else (some id) other = some id

abbrev save_review : Uuid → (IdentityMatchReview → IdentityMatchReview) → Db → Db
save_review id change db = record db { reviews = update_where (λ r. r.id == id) change db.reviews }

abbrev pub decided : String → String → Instant → IdentityMatchReview → IdentityMatchReview
decided status actor now r = record r {
  status = status;
  reviewer = some actor;
  reviewed_at = some now;
}

module _ (words : Words) (now : Instant) (actor : String) (reason : Option String) where
  abbrev alias_of_source : Uuid → SourceType → Option String → Session (Unit {0})
  alias_of_source mosque_id source_type none = pure tt
  alias_of_source mosque_id source_type (some name) =
      if name == "" then pure tt else ensure_alias words mosque_id (codes name) source_type

  abbrev link : IdentityMatchReview → MosqueSource → Mosque → Session IdentityMatchReview
  link review source mosque = do
    modify (λ db. record db {
      sources =
          update_where (λ s. s.id == source.id) (λ s. record s { mosque_id = some mosque.id })
            db.sources;
    })
    alias_of_source mosque.id source.source_type source.display_name
    modify (
        save_review review.id
          (λ r. record (decided "accepted" actor now r) { proposed_mosque_id = some mosque.id }))
    modify (
        add_action
          (audit_row actor "accept_identity_review" "identity_match_review" review.id reason))
    pure (record (decided "accepted" actor now review) { proposed_mosque_id = some mosque.id })

  abbrev link_target :
      IdentityMatchReview → MosqueSource → Option Uuid → Session IdentityMatchReview
  link_target review source none = raise (value_error "accepting this review requires a mosque_id")
  link_target review source (some target) = do
    raise_if (not (contains target (candidate_ids review)))
        (value_error "mosque_id is not one of the review candidates")
    mosque ← require_mosque target
    link review source mosque

  abbrev accept_source :
      IdentityMatchReview → Option Uuid → Option MosqueSource → Session IdentityMatchReview
  accept_source review mosque_id none =
      raise (value_error "identity review source no longer exists")
  accept_source review mosque_id (some source) =
      link_target review source
        (or_else mosque_id (or_else review.proposed_mosque_id (single_candidate_id review)))

  abbrev accept_of : IdentityMatchReview → Option Uuid → Option Uuid → Session IdentityMatchReview
  accept_of review mosque_id none = raise (value_error "identity review has no source to link")
  accept_of review mosque_id (some source_id) = do
    source ← gets (get_source source_id)
    accept_source review mosque_id source

  unfoldable pub accept_identity_review : Uuid → Option Uuid → Session IdentityMatchReview
  accept_identity_review review_id mosque_id = do
    review ← require_identity_review review_id
    raise_if (not (review.status == "pending")) (value_error "identity review is not pending")
    accept_of review mosque_id review.source_id

  unfoldable pub reject_identity_review : Uuid → Session IdentityMatchReview
  reject_identity_review review_id = do
    review ← require_identity_review review_id
    raise_if (not (review.status == "pending")) (value_error "identity review is not pending")
    modify (save_review review.id (decided "rejected" actor now))
    modify (
        add_action
          (audit_row actor "reject_identity_review" "identity_match_review" review.id reason))
    pure (decided "rejected" actor now review)
