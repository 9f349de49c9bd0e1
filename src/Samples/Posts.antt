-- ===== src/Samples/Posts.antt =====
-- The overview of three posts on two platforms.
use socialhub.Prelude.{
  ◌≡◌, ◌≤◌, Bool, false, none, List, [], ◌∷◌, ◌++◌, length, count_if, map, String, ◌⊎◌,
}
use socialhub.Analytics.{
  MetricRow, MetricKey, metric, TopPost, top_post, aggregate_overview, zero_metrics,
}
use socialhub.Analytics.Totals.{
  sum_if, on, of_platform, bucket_metric, row_metric, any_row, aggregate_overview-totals,
}
use socialhub.Analytics.Ranking.{Descending, Beats, top_posts-Beats}

abbrev quiet : MetricRow
quiet = record {
  publish_job_id = 0;
  variant_id = none;
  platform = "x";
  external_post_id = none;
  metrics = zero_metrics;
  captured_at = 1000;
}

abbrev liked : MetricRow
liked = record quiet { publish_job_id = 1; metrics = record zero_metrics { likes = 5; reach = 9 } }

abbrev shared : MetricRow
shared = record quiet {
  publish_job_id = 2;
  platform = "threads";
  metrics = record zero_metrics { shares = 7 };
}

abbrev posts : List MetricRow
posts = quiet ∷ liked ∷ shared ∷ []

abbrev never : String → String → Bool
never a b = false

aggregate_overview-totals_example :
    let o = aggregate_overview never posts 2 in
    (metric MetricKey.likes o.totals ≡ sum_if any_row (row_metric MetricKey.likes) posts)
    × (count_if (of_platform "x") o.by_platform ≤ 1)
    × (sum_if (of_platform "x") (λ b. b.post_count) o.by_platform ≡ count_if (on "x") posts)
    × (sum_if (of_platform "x") (bucket_metric MetricKey.likes) o.by_platform
        ≡ sum_if (on "x") (row_metric MetricKey.likes) posts)
    × (o.post_count ≡ length posts)
aggregate_overview-totals_example = aggregate_overview-totals never posts 2 MetricKey.likes "x"

top_posts-Beats_example :
    let top = (aggregate_overview never posts 2).top_posts in
    (length top ≤ 2)
    × Descending top
    × ((rest : List TopPost) × Beats top rest
        × ((length (aggregate_overview never posts 2).top_posts ≡ 2) ⊎ (rest ≡ []))
        × ((p : TopPost → Bool) → count_if p (top ++ rest) ≡ count_if p (map top_post posts)))
top_posts-Beats_example = top_posts-Beats never posts 2
