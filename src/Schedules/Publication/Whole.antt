-- ===== src/Schedules/Publication/Whole.antt =====
-- `publish_candidates` of schedules/publication.py from end to end: what a publication that returns
-- has put into the version that it publishes.
use uk_jamaat_directory.Prelude.{
  ◌≡◌, refl, sym, subst, ◌∙◌, nat_eq, true, false, not, ◌&&◌, Option, none, some, List, [], ◌∷◌,
  Bool-cases, inl, inr, All, All-map, All-vacuous, any, select,
}
use uk_jamaat_directory.Prelude.Dict.{Distinct, Distinct-select, Dict}
use uk_jamaat_directory.Models.Calendar.{Date, World}
use uk_jamaat_directory.Models.Rows.{Uuid, ScheduleCandidate, DatasetVersion, ScheduleOccurrence}
use uk_jamaat_directory.Models.Session.{Db, integrity_error, gets, pure, raise_if, ◌>>=◌, ◌>>◌}
use uk_jamaat_directory.Models.Triples.{Ensures, Ensures-bind, Ensures-map}
use uk_jamaat_directory.Schedules.Types.{Settings, PublishResult}
use uk_jamaat_directory.Schedules.Queries.{Filters, candidate_filters}
use uk_jamaat_directory.Schedules.Keys.{OccurrenceKey}
use uk_jamaat_directory.Schedules.Dataset.{
  get_latest_published_version, create_published_dataset_version, patches_of_day, name_taken,
  next_patch,
}
use uk_jamaat_directory.Schedules.Prefetch.Lookup.{IsKeyed}
use uk_jamaat_directory.Schedules.Freshness.{
  in_version, recompute_source_health, refresh_occurrence_freshness_for_source,
}
use uk_jamaat_directory.Schedules.Freshness.Frame.{
  recompute_source_health_rows, IsStable, refresh_occurrence_freshness_rows,
}
use uk_jamaat_directory.Schedules.Publication.Select.{
  PublishableCandidate, select_publishable_candidates,
}
use uk_jamaat_directory.Schedules.Publication.Gates.{
  IsPublishable, select_publishable_candidates-IsPublishable,
}
use uk_jamaat_directory.Schedules.Publication.Loops.{Run, occurrences_unique}
use uk_jamaat_directory.Schedules.Publication.{
  is_approved, batch_run, final_run, load_all_previous_occurrences, publish_rows, update_manifest,
  refresh_sources, version_or_new, finish_publish, publish_into, publish_selected,
  publish_candidates,
}
use uk_jamaat_directory.Schedules.Publication.Public.{
  IsPublicRow, IsPublicItem, ArePublic, load_all_previous_occurrences-ArePublic,
  IsPublishable-IsPublicItem, batch_run-Holds, final_run-Holds,
}

-- The id of the version that a publication fills: the given one's, or the next new id.
abbrev pub target : Option DatasetVersion → Db → Uuid
target none db = db.next_id
target (some version) db = version.id

version_or_new_rows :
    (given : Option DatasetVersion) (day : Date) (w : World) (db : Db)
    → Ensures
        (λ v db'.
          (v.id ≡ target given db)
          × (db'.sources ≡ db.sources)
          × (db'.occurrences ≡ db.occurrences))
        (version_or_new given day w db)
unfolding Ensures version_or_new create_published_dataset_version
version_or_new_rows (some version) day w db = (refl, refl, refl)
version_or_new_rows none day w db =
    elim (Bool-cases (name_taken day (next_patch (patches_of_day day db.versions)) db)) [
      | inl t ↦ rw t tt
      | inr n ↦ rw n (refl, refl, refl)
    ]

module _ (cfg : Settings) (w : World) (P : ScheduleOccurrence → Type 0) (stable : IsStable P) where
  refresh_sources_rows :
      (ids : List Uuid) (db : Db)
      → All P db.occurrences
      → Ensures
          (λ _ db'. (db'.sources ≡ db.sources) × All P db'.occurrences)
          (refresh_sources cfg w ids db)
  unfolding refresh_sources Ensures
  refresh_sources_rows [] db h = (refl, h)
  refresh_sources_rows (id ∷ ids) db h =
      Ensures-bind _ _ (recompute_source_health cfg w id)
        (λ _. refresh_occurrence_freshness_for_source id >> refresh_sources cfg w ids) db
        (recompute_source_health_rows cfg w id db)
        (λ _ db₁ same.
          Ensures-bind _ _ (refresh_occurrence_freshness_for_source id)
            (λ _. refresh_sources cfg w ids) db₁
            (refresh_occurrence_freshness_rows P stable id db₁ (subst (All P) (sym same.1) h))
            (λ _ db₂ kept.
              Ensures-map (λ _ db'. (db'.sources ≡ db₂.sources) × All P db'.occurrences)
                (λ _ db'. (db'.sources ≡ db.sources) × All P db'.occurrences)
                (refresh_sources cfg w ids db₂) (λ _ db' q. (q.0 ∙ (kept.0 ∙ same.0), q.1))
                (refresh_sources_rows ids db₂ kept.1)))

-- A version's rows are public, and the unique constraint on occurrences holds if it held before.
abbrev pub IsPublished : Uuid → Db → Db → Type 0
IsPublished version_id db db' =
    (db'.sources ≡ db.sources)
    × All (IsPublicRow db version_id) db'.occurrences
    × (occurrences_unique db.occurrences ≡ true → occurrences_unique db'.occurrences ≡ true)

module _ (cfg : Settings) (w : World) (day : Date) (f : Filters) (given : Option DatasetVersion)
    (db : Db) where
  abbrev IsFresh : Type 0
  IsFresh = any (in_version (some (target given db))) db.occurrences ≡ false

  publish_rows-run :
      (version : DatasetVersion) (fp : Dict OccurrenceKey ScheduleOccurrence)
      (items : List PublishableCandidate) (r : PublishResult) (db₁ : Db)
      → Ensures
          (λ run _. run ≡ final_run w f version fp (batch_run w f version fp items r db₁))
          (publish_rows w f version fp items r db₁)
  unfolding publish_rows Ensures
  publish_rows-run version fp items r db₁ =
      elim (Bool-cases (occurrences_unique (batch_run w f version fp items r db₁).db.occurrences)) [
        | inl t ↦ rw t refl
        | inr n ↦ rw n tt
      ]

  unique_after :
      (version_id : Uuid) (r : PublishResult) (db' : Db)
      → (db'.sources ≡ db.sources) × All (IsPublicRow db version_id) db'.occurrences
      → Ensures
          (λ _ db''. IsPublished version_id db db'')
          ((raise_if (not (occurrences_unique db'.occurrences)) integrity_error >> pure r) db')
  unfolding Ensures
  unique_after version_id r db' h = elim (Bool-cases (occurrences_unique db'.occurrences)) [
    | inl t ↦ rw t (h.0, h.1, λ _. t)
    | inr n ↦ rw n tt
  ]

  finish_publish-IsPublished :
      (version : DatasetVersion) (version_id : Uuid) (run : Run) (db' : Db)
      → (run.db.sources ≡ db.sources) × All (IsPublicRow db version_id) run.db.occurrences
      → Ensures (λ _ db''. IsPublished version_id db db'') (finish_publish cfg w version run db')
  unfolding finish_publish update_manifest
  finish_publish-IsPublished version version_id run db' h =
      Ensures-bind _ _ (refresh_sources cfg w run.touched)
        (λ _. gets (λ (d : Db). d.occurrences) >>= λ occurrences.
          raise_if (not (occurrences_unique occurrences)) integrity_error >> pure run.result)
        (update_manifest version run run.db)
        (refresh_sources_rows cfg w (IsPublicRow db version_id) (λ o s q. q) run.touched
          (update_manifest version run run.db) h.1)
        (λ _ db₂ kept. unique_after version_id run.result db₂ (kept.0 ∙ h.0, kept.1))

  publish_into-IsPublished :
      (fp : Dict OccurrenceKey ScheduleOccurrence) (items : List PublishableCandidate)
      (r : PublishResult) (version : DatasetVersion) (db₁ : Db)
      → ArePublic db fp
      → All (IsPublicItem db) items
      → (db₁.sources ≡ db.sources) × All (IsPublicRow db version.id) db₁.occurrences
      → Ensures
          (λ _ db'. IsPublished version.id db db')
          (publish_into cfg w f fp items r version db₁)
  unfolding publish_into
  publish_into-IsPublished fp items r version db₁ public a h =
      let result = record r { dataset_version = some version.version } in
      Ensures-bind _ _ (publish_rows w f version fp items result) (finish_publish cfg w version) db₁
        (publish_rows-run version fp items result db₁)
        (λ run db₂ q. finish_publish-IsPublished version version.id run db₂ (
          subst
            (λ (x : Run).
              (x.db.sources ≡ db.sources) × All (IsPublicRow db version.id) x.db.occurrences)
            (sym q)
            (final_run-Holds db w f version fp public _
              (batch_run-Holds db w f version fp public items result db₁ a h))))

  publish_selected-IsPublished :
      (items : List PublishableCandidate) (r : PublishResult)
      → IsFresh
      → All (IsPublicItem db) items
      → Ensures
          (λ _ db'. IsPublished (target given db) db db')
          (publish_selected cfg w day f given (items, r) db)
  unfolding publish_selected Ensures
  publish_selected-IsPublished [] r fresh a = (refl, All-vacuous _ _ db.occurrences fresh, λ u. u)
  publish_selected-IsPublished (p ∷ items) r fresh a =
      let previous = load_all_previous_occurrences (get_latest_published_version db) db in
      Ensures-bind _ _ (version_or_new given day w) (publish_into cfg w f previous (p ∷ items) r) db
        (version_or_new_rows given day w db)
        (λ version db₁ q.
          subst
            (λ (id : Uuid).
              Ensures (λ _ db'. IsPublished id db db')
                (publish_into cfg w f previous (p ∷ items) r version db₁))
            q.0
            (publish_into-IsPublished previous (p ∷ items) r version db₁
              (load_all_previous_occurrences-ArePublic db (get_latest_published_version db)) a
              (q.1, rw (q.0, q.2) (All-vacuous _ _ db.occurrences fresh))))

  -- In a database with keyed tables and distinct candidates, if the version that a publication fills
  -- has no row yet: when the publication returns, every occurrence of that version comes from a
  -- source that is stored and allows public redistribution, the sources are as they were, and if no
  -- two occurrences of one version had the same key before, none have afterwards.
  pub publish_candidates-IsPublished :
      IsKeyed db
      → Distinct (λ (c : ScheduleCandidate). c.id) db.candidates
      → any (in_version (some (target given db))) db.occurrences ≡ false
      → Ensures
          (λ _ db'. IsPublished (target given db) db db')
          (publish_candidates cfg w day f given db)
  unfolding publish_candidates
  publish_candidates-IsPublished keyed d fresh =
      let p = λ (c : ScheduleCandidate). is_approved c && candidate_filters f c in
      let cs = select p db.candidates in
      publish_selected-IsPublished (select_publishable_candidates cfg w cs db).0
        (select_publishable_candidates cfg w cs db).1 fresh
        (All-map (IsPublishable cfg w db) (IsPublicItem db) _ (IsPublishable-IsPublicItem cfg w db)
          (select_publishable_candidates-IsPublishable cfg w db keyed cs
            (Distinct-select (λ (c : ScheduleCandidate). c.id) p db.candidates d)))
