-- ===== src/Variants/Renditions.antt =====
-- What a generation of variants leaves behind.
use socialhub.Prelude.{
  ℕ, ◌<◌, ◌≡◌, ◌≤◌, String, true, false, Option, none, some, Result, ok, err, List, All, ◌==◌,
}
use text.Mathlib.Text.{◌==◌ as str_eq}
use socialhub.Schema.{RowId, Platform, VariantStatus}
use socialhub.Database.{Table}
use socialhub.Variants.{
  Variant, Design, AssetType, RenderError, no_image, no_layers, no_url, Urls, of_key,
  capabilities_for, rendered_url,
}

module _ (variants : Table Variant) (urls : Urls) (asset_id : RowId) where
  -- The variant of the platform is ready, with the address.
  abbrev pub Rendered : Platform → String → variants.State → Type 0
  Rendered p url s =
      (k : RowId) × (v : Variant) × (variants.find s k ≡ some v)
      × (of_key asset_id p v ≡ true)
      × (v.rendered_media_url ≡ some url)
      × (v.status ≡ VariantStatus.ready)

  -- Each platform has at most one variant of the design.
  abbrev pub Unique : variants.State → Type 0
  Unique s = (p : Platform) → variants.count s (of_key asset_id p) ≤ 1

  -- The rendition of a public id in the size of a platform, cut to its longest video.
  abbrev pub IsAddress : AssetType → (id : String) → Platform → Option String → Type 0
  IsAddress AssetType.image id Platform.instagram o = o ≡ urls.image_url id 1080 1080
  IsAddress AssetType.image id Platform.facebook o = o ≡ urls.image_url id 1200 630
  IsAddress AssetType.image id Platform.threads o = o ≡ urls.image_url id 1080 1080
  IsAddress AssetType.image id Platform.x o = o ≡ urls.image_url id 1600 900
  IsAddress AssetType.image id Platform.linkedin o = o ≡ urls.image_url id 1200 627
  IsAddress AssetType.video id Platform.instagram o = o ≡ urls.video_url id 1080 1080 (some 900)
  IsAddress AssetType.video id Platform.facebook o = o ≡ urls.video_url id 1200 630 (some 14400)
  IsAddress AssetType.video id Platform.threads o = o ≡ urls.video_url id 1080 1080 (some 300)
  IsAddress AssetType.video id Platform.x o = o ≡ urls.video_url id 1600 900 (some 140)
  IsAddress AssetType.video id Platform.linkedin o = o ≡ urls.video_url id 1200 627 (some 1800)

  -- A variant of the platform is ready, with the address of the rendition in the platform's size.
  abbrev pub Ready : AssetType → String → variants.State → Platform → Type 0
  Ready type id s p = (url : String) × IsAddress type id p (some url) × Rendered p url s

  -- The address of a rendition where there is one.
  abbrev url_or : AssetType → String → Platform → String
  url_or type id p = elim (rendered_url urls type id (capabilities_for p)) [
    | none ↦ ""
    | some url ↦ url
  ]

  -- Every platform has its variant, or the builder has thrown for one of them.
  abbrev pub Looped :
      AssetType → String → List Platform → Result RenderError (Unit {0}) × variants.State → Type 0
  Looped type id ps (err e, t) = (e ≡ no_url) × ((p : Platform) × IsAddress type id p none)
  Looped type id ps (ok _, t) = All (λ (p : Platform). Ready type id t p) ps

  -- A design with a master image and at least one layer.
  abbrev pub IsRenderable : Option String → Option ℕ → String → Type 0
  IsRenderable master layers id =
      (master ≡ some id) × (str_eq id "" ≡ false) × ((n : ℕ) × (layers ≡ some n) × (0 < n))

  -- No image, or no layer; or a design that can be rendered.
  abbrev pub Judged : Option String → Option ℕ → Result RenderError String → Type 0
  Judged master layers (err no_image) = (id : String) → master ≡ some id → str_eq id "" ≡ true
  Judged master layers (err no_layers) = (n : ℕ) → layers ≡ some n → n ≡ 0
  Judged master layers (err no_url) = ⊥
  Judged master layers (ok id) = IsRenderable master layers id

  -- What a generation leaves behind.
  abbrev pub Generated :
      Design
      → List Platform
      → variants.State
      → Result RenderError (Unit {0}) × variants.State
      → Type 0
  Generated d ps s (err no_image, t) =
      (t ≡ s) × ((id : String) → d.master_image_public_id ≡ some id → str_eq id "" ≡ true)
  Generated d ps s (err no_layers, t) = (t ≡ s) × ((n : ℕ) → d.layers ≡ some n → n ≡ 0)
  Generated d ps s (err no_url, t) =
      (id : String) × IsRenderable d.master_image_public_id d.layers id
      × ((p : Platform) × IsAddress d.asset_type id p none)
      × Unique t
  Generated d ps s (ok _, t) =
      (id : String) × IsRenderable d.master_image_public_id d.layers id
      × All (λ (p : Platform). Ready d.asset_type id t p) ps
      × Unique t
