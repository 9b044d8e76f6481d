-- ===== src/Ingest/Crawl/Delay.antt =====
-- When the next fetch of a source is due after a crawl (ingest/crawl/pipeline.py).
use uk_jamaat_directory.Prelude.{
  ℕ, zero, suc, ◌+◌, ◌≤◌, ◌≡◌, ◌≢◌, refl, ◌==◌, nat_eq, Bool, true, false, some, List, [], ◌∷◌,
  first, update_where, leb, arith, Bool-cases, inl, inr, All, if◌then◌else◌, string_eq,
}
use uk_jamaat_directory.Domain.{source_failed}
use uk_jamaat_directory.Models.Json.{iso_instant, get, get-put}
use uk_jamaat_directory.Models.Rows.{Uuid, MosqueSource, SourceHealth, ScheduleCandidate}
use uk_jamaat_directory.Models.Session.{Db}
use uk_jamaat_directory.Ingest.Crawl.State.{
  CrawlSettings, Crawler, hours, fetch_delay, with_next_fetch,
}
use uk_jamaat_directory.Ingest.Crawl.Booked.{failures_of}

module _ (c : Crawler) (id : Uuid) where
  -- The tables after a crawl that was or was not a success, given the health records and the
  -- candidates before it.
  pub record IsBooked (success : Bool) (healths : List SourceHealth)
      (before : List ScheduleCandidate) (db' : Db) : Type 0 where
    pub health : SourceHealth
    pub found : first (λ h. h.source_id == id) db'.healths ≡ some health
    pub failures :
        health.consecutive_failures
        ≡ (if success then 0 else suc (failures_of (first (λ h. h.source_id == id) healths)))
    pub failed :
        success ≡ false → 3 ≤ health.consecutive_failures → health.freshness_status ≡ source_failed
    pub others :
        (j : Uuid)
        → j ≢ id
        → first (λ h. h.source_id == j) db'.healths ≡ first (λ h. h.source_id == j) healths
    pub candidates : db'.candidates ≡ before
    pub delay : ℕ
    pub next :
        All
          (λ s.
            s.id ≡ id → get "next_fetch_at" s.metadata ≡ some (iso_instant (c.now + hours delay)))
          db'.sources
    pub interval : success ≡ true → delay ≡ c.settings.crawl_interval_hours
    pub backoff : success ≡ false → (2 ≤ delay) × (delay ≤ 16)

  pub with_next_fetch-All :
      (delay : ℕ) (rows : List MosqueSource)
      → All
          (λ s.
            s.id ≡ id → get "next_fetch_at" s.metadata ≡ some (iso_instant (c.now + hours delay)))
          (update_where (λ s. s.id == id) (with_next_fetch (c.now + hours delay)) rows)
  with_next_fetch-All delay [] = tt
  with_next_fetch-All delay (s ∷ rows) = elim (Bool-cases (s.id == id)) [
    | inl t ↦ rw t (
      (λ q. get-put "next_fetch_at" "next_fetch_at" (iso_instant (c.now + hours delay)) s.metadata),
      with_next_fetch-All delay rows,
    )
    | inr f ↦ rw f ((λ q. absurd (ground (arith, q, f))), with_next_fetch-All delay rows)
  ]

fetch_delay-bounds :
    (cfg : CrawlSettings) (failures : ℕ)
    → (2 ≤ fetch_delay cfg false (suc failures)) × (fetch_delay cfg false (suc failures) ≤ 16)
unfolding fetch_delay
fetch_delay-bounds cfg zero = (omega arith, omega arith)
fetch_delay-bounds cfg (suc zero) = (omega arith, omega arith)
fetch_delay-bounds cfg (suc (suc zero)) = (omega arith, omega arith)
fetch_delay-bounds cfg (suc (suc (suc zero))) = (omega arith, omega arith)
fetch_delay-bounds cfg (suc (suc (suc (suc n)))) =
    let f : leb (suc (suc (suc (suc (suc n))))) 4 ≡ false = ground arith in
    rw f (omega arith, omega arith)

pub delay_interval :
    (cfg : CrawlSettings) (success : Bool) (n : ℕ)
    → success ≡ true
    → fetch_delay cfg success n ≡ cfg.crawl_interval_hours
unfolding fetch_delay
delay_interval cfg true n q = refl
delay_interval cfg false n q = cc

pub delay_backoff :
    (cfg : CrawlSettings) (success : Bool) (n m : ℕ)
    → success ≡ false
    → n ≡ (if success then 0 else suc m)
    → (2 ≤ fetch_delay cfg success n) × (fetch_delay cfg success n ≤ 16)
delay_backoff cfg true n m q e = cc
delay_backoff cfg false n m q e = rw e (fetch_delay-bounds cfg m)
