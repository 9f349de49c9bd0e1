-- ===== src/Analytics.antt =====
-- backend/src/analytics/analytics-aggregation.ts: the overview of an organization's posts.
pub mod Totals
pub mod Ranking
use socialhub.Prelude.{
  ℕ, ◌+◌, ◌≤◌, String, Bool, true, false, Option, none, some, List, [], ◌∷◌, ltb, if◌then◌else◌,
  length, map, take,
}
use text.Mathlib.Text.{◌==◌ as str_eq}
use socialhub.Schema.{RowId, Millis}

-- CanonicalMetrics: counts, which the normalizers keep from being negative.
pub record CanonicalMetrics : Type 0 where
  pub impressions : ℕ
  pub reach : ℕ
  pub likes : ℕ
  pub comments : ℕ
  pub shares : ℕ
  pub clicks : ℕ

pub record MetricRow : Type 0 where
  pub publish_job_id : RowId
  pub variant_id : Option RowId
  pub platform : String
  pub external_post_id : Option String
  pub metrics : CanonicalMetrics
  pub captured_at : Millis

pub record PlatformBreakdown : Type 0 where
  pub platform : String
  pub post_count : ℕ
  pub metrics : CanonicalMetrics

pub record TopPost : Type 0 where
  pub publish_job_id : RowId
  pub variant_id : Option RowId
  pub platform : String
  pub external_post_id : Option String
  pub metrics : CanonicalMetrics
  pub engagement_score : ℕ

pub record AnalyticsOverview : Type 0 where
  pub totals : CanonicalMetrics
  pub by_platform : List PlatformBreakdown
  pub post_count : ℕ
  pub top_posts : List TopPost
  pub last_updated : Option Millis

abbrev pub zero_metrics : CanonicalMetrics
zero_metrics = record {
  impressions = 0;
  reach = 0;
  likes = 0;
  comments = 0;
  shares = 0;
  clicks = 0;
}

abbrev pub add_into : CanonicalMetrics → CanonicalMetrics → CanonicalMetrics
add_into acc m = record {
  impressions = acc.impressions + m.impressions;
  reach = acc.reach + m.reach;
  likes = acc.likes + m.likes;
  comments = acc.comments + m.comments;
  shares = acc.shares + m.shares;
  clicks = acc.clicks + m.clicks;
}

-- METRIC_KEYS, and `acc[k]`.
pub data MetricKey : Type 0 where
  impressions reach likes comments shares clicks : MetricKey

abbrev pub metric : MetricKey → CanonicalMetrics → ℕ
metric MetricKey.impressions m = m.impressions
metric MetricKey.reach m = m.reach
metric MetricKey.likes m = m.likes
metric MetricKey.comments m = m.comments
metric MetricKey.shares m = m.shares
metric MetricKey.clicks m = m.clicks

abbrev pub engagement_of : CanonicalMetrics → ℕ
engagement_of m = m.likes + m.comments + m.shares + m.clicks

abbrev pub counted : MetricRow → PlatformBreakdown → PlatformBreakdown
counted row b = record b { post_count = b.post_count + 1; metrics = add_into b.metrics row.metrics }

abbrev pub new_bucket : String → PlatformBreakdown
new_bucket platform = record { platform = platform; post_count = 0; metrics = zero_metrics }

-- The bucket of the row's platform in a Map, which keeps the order of insertion.
unfoldable pub bump : MetricRow → List PlatformBreakdown → List PlatformBreakdown
bump row [] = counted row (new_bucket row.platform) ∷ []
bump row (b ∷ bs) =
    let rest = bump row bs in
    if str_eq b.platform row.platform then counted row b ∷ bs else b ∷ rest

-- `!lastUpdated || row.capturedAt > lastUpdated`
abbrev pub later : Option Millis → Millis → Millis
later none at = at
later (some last) at = if ltb last at then at else last

-- The variables of the loop.
pub record Sums : Type 0 where
  pub totals : CanonicalMetrics
  pub per_platform : List PlatformBreakdown
  pub last_updated : Option Millis

abbrev pub no_sums : Sums
no_sums = record { totals = zero_metrics; per_platform = []; last_updated = none }

abbrev pub add_row : Sums → MetricRow → Sums
add_row s row = record {
  totals = add_into s.totals row.metrics;
  per_platform = bump row s.per_platform;
  last_updated = some (later s.last_updated row.captured_at);
}

unfoldable pub add_rows : Sums → List MetricRow → Sums
add_rows s [] = s
add_rows s (row ∷ rows) = add_rows (add_row s row) rows

abbrev pub top_post : MetricRow → TopPost
top_post row = record {
  publish_job_id = row.publish_job_id;
  variant_id = row.variant_id;
  platform = row.platform;
  external_post_id = row.external_post_id;
  metrics = row.metrics;
  engagement_score = engagement_of row.metrics;
}

-- Array.prototype.sort, which is stable, by what comes strictly before what.
unfoldable pub insert_by : {A : Type 0} → (A → A → Bool) → A → List A → List A
insert_by before x [] = x ∷ []
insert_by before x (y ∷ ys) =
    let rest = insert_by before x ys in if before y x then y ∷ rest else x ∷ y ∷ ys

unfoldable pub sort_by : {A : Type 0} → (A → A → Bool) → List A → List A
sort_by before [] = []
sort_by before (x ∷ xs) = insert_by before x (sort_by before xs)

abbrev pub by_score : TopPost → TopPost → Bool
by_score a b = ltb b.engagement_score a.engagement_score

unfoldable pub ranked : List MetricRow → List TopPost
ranked rows = sort_by by_score (map top_post rows)

-- `precedes` is String.prototype.localeCompare with a negative answer.
unfoldable pub aggregate_overview :
    (precedes : String → String → Bool) → List MetricRow → (top_n : ℕ) → AnalyticsOverview
aggregate_overview precedes rows top_n =
    let s = add_rows no_sums rows in
    record {
      totals = s.totals;
      by_platform = sort_by (λ a b. precedes a.platform b.platform) s.per_platform;
      post_count = length rows;
      top_posts = take top_n (ranked rows);
      last_updated = s.last_updated;
    }
