-- ===== src/Variants.antt =====
-- backend/src/content/variant-generator.service.ts: the renditions of a design, one for each
-- platform, with the capabilities that the adapters of backend/src/social-accounts/adapters name.
pub mod Renditions
use socialhub.Prelude.{
  ℕ, String, Bool, true, false, Option, none, some, Result, ok, err, List, [], ◌∷◌, ◌==◌, ◌&&◌,
  if◌then◌else◌,
}
use text.Mathlib.Text.{◌==◌ as str_eq}
use socialhub.Schema.{RowId, Platform, platform_eq, VariantStatus}
use socialhub.Database.{Table, update, first}

pub data PlatformMediaType : Type 0 where
  image video : PlatformMediaType

pub record PlatformImageSpec : Type 0 where
  pub width : ℕ
  pub height : ℕ
  pub aspect_ratio : String

pub record PlatformRateLimit : Type 0 where
  pub requests : ℕ
  pub window_seconds : ℕ

pub record PlatformCapabilities : Type 0 where
  pub supported_media_types : List PlatformMediaType
  pub max_caption_length : ℕ
  pub max_video_duration_seconds : Option ℕ
  pub image_spec : PlatformImageSpec
  pub rate_limit : PlatformRateLimit
  pub max_carousel_items : Option ℕ

abbrev pub instagram_capabilities : PlatformCapabilities
instagram_capabilities = record {
  supported_media_types = image ∷ video ∷ [];
  max_caption_length = 2200;
  max_video_duration_seconds = some 900;
  image_spec = record { width = 1080; height = 1080; aspect_ratio = "1:1" };
  rate_limit = record { requests = 200; window_seconds = 3600 };
  max_carousel_items = some 10;
}

abbrev pub facebook_capabilities : PlatformCapabilities
facebook_capabilities = record {
  supported_media_types = image ∷ video ∷ [];
  max_caption_length = 63206;
  max_video_duration_seconds = some 14400;
  image_spec = record { width = 1200; height = 630; aspect_ratio = "1.91:1" };
  rate_limit = record { requests = 200; window_seconds = 3600 };
  max_carousel_items = some 10;
}

abbrev pub threads_capabilities : PlatformCapabilities
threads_capabilities = record {
  supported_media_types = image ∷ video ∷ [];
  max_caption_length = 500;
  max_video_duration_seconds = some 300;
  image_spec = record { width = 1080; height = 1080; aspect_ratio = "1:1" };
  rate_limit = record { requests = 250; window_seconds = 86400 };
  max_carousel_items = some 20;
}

abbrev pub x_capabilities : PlatformCapabilities
x_capabilities = record {
  supported_media_types = image ∷ video ∷ [];
  max_caption_length = 280;
  max_video_duration_seconds = some 140;
  image_spec = record { width = 1600; height = 900; aspect_ratio = "16:9" };
  rate_limit = record { requests = 50; window_seconds = 86400 };
  max_carousel_items = some 4;
}

abbrev pub linkedin_capabilities : PlatformCapabilities
linkedin_capabilities = record {
  supported_media_types = image ∷ video ∷ [];
  max_caption_length = 3000;
  max_video_duration_seconds = some 1800;
  image_spec = record { width = 1200; height = 627; aspect_ratio = "1.91:1" };
  rate_limit = record { requests = 100; window_seconds = 86400 };
  max_carousel_items = some 20;
}

-- Every platform has an adapter.
abbrev pub capabilities_for : Platform → PlatformCapabilities
capabilities_for Platform.instagram = instagram_capabilities
capabilities_for Platform.facebook = facebook_capabilities
capabilities_for Platform.threads = threads_capabilities
capabilities_for Platform.x = x_capabilities
capabilities_for Platform.linkedin = linkedin_capabilities

-- ContentAssetType.
pub data AssetType : Type 0 where
  image video : AssetType

-- The columns of a design that are read, with the number of layers where the canvas has a list of
-- them.
pub record Design : Type 0 where
  pub asset_type : AssetType
  pub master_image_public_id : Option String
  pub layers : Option ℕ

pub record Variant : Type 0 where
  pub asset_id : RowId
  pub platform : Platform
  pub rendered_media_url : Option String
  pub caption : Option String
  pub hashtags : Option String
  pub status : VariantStatus

-- The two 422s, and the exception of a builder of URLs.
pub data RenderError : Type 0 where
  no_image no_layers no_url : RenderError

-- The delivery URLs of Cloudinary; `none` where the call throws.
pub record Urls : Type 0 where
  pub image_url : (public_id : String) (width height : ℕ) → Option String
  pub video_url : (public_id : String) (width height : ℕ) (max_duration : Option ℕ) → Option String

-- The unique key (assetId, platform).
abbrev pub of_key : RowId → Platform → Variant → Bool
of_key asset_id platform v = (v.asset_id == asset_id) && platform_eq v.platform platform

abbrev pub rerendered : String → Variant → Variant
rerendered url v = record v { rendered_media_url = some url; status = VariantStatus.ready }

abbrev pub new_variant : RowId → Platform → String → Variant
new_variant asset_id platform url = record {
  asset_id = asset_id;
  platform = platform;
  rendered_media_url = some url;
  caption = none;
  hashtags = none;
  status = VariantStatus.ready;
}

abbrev pub has_layers : Option ℕ → Bool
has_layers none = false
has_layers (some n) = if n == 0 then false else true

-- assertRenderable: the public id, where the design may be rendered.
unfoldable pub assert_renderable : Design → Result RenderError String
assert_renderable d = elim d.master_image_public_id [
  | none ↦ err no_image
  | some id ↦
      if str_eq id "" then err no_image else if has_layers d.layers then ok id else err no_layers
]

unfoldable pub rendered_url :
    Urls → AssetType → (public_id : String) → PlatformCapabilities → Option String
rendered_url urls AssetType.video id caps =
    urls.video_url id caps.image_spec.width caps.image_spec.height caps.max_video_duration_seconds
rendered_url urls AssetType.image id caps =
    urls.image_url id caps.image_spec.width caps.image_spec.height

module _ (variants : Table Variant) (urls : Urls) where
  unfoldable pub upsert :
      RowId → Platform → String → variants.State → Option (RowId × Variant) → variants.State
  upsert asset_id platform url s (some (id, v)) = update variants s id (rerendered url)
  upsert asset_id platform url s none = (variants.create s (new_variant asset_id platform url)).1

  abbrev pub find_variant : RowId → Platform → variants.State → Option (RowId × Variant)
  find_variant asset_id platform s = first (variants.find_many s (of_key asset_id platform))

  abbrev pub render : RowId → Platform → (url : String) → variants.State → variants.State
  render asset_id platform url s = upsert asset_id platform url s (find_variant asset_id platform s)

  -- The loop. An exception leaves the variants of the platforms before it.
  unfoldable pub render_all :
      RowId
      → AssetType
      → (public_id : String) → List Platform
      → variants.State
      → Result RenderError (Unit {0}) × variants.State
  render_all asset_id type id [] s = (ok tt, s)
  render_all asset_id type id (p ∷ ps) s = elim (rendered_url urls type id (capabilities_for p)) [
    | none ↦ (err no_url, s)
    | some url ↦ render_all asset_id type id ps (render asset_id p url s)
  ]

  unfoldable pub generated :
      RowId
      → AssetType
      → List Platform
      → variants.State
      → Result RenderError String
      → Result RenderError (Unit {0}) × variants.State
  generated asset_id type platforms s (err e) = (err e, s)
  generated asset_id type platforms s (ok id) = render_all asset_id type id platforms s

  unfoldable pub generate :
      RowId
      → Design
      → List Platform
      → variants.State
      → Result RenderError (Unit {0}) × variants.State
  generate asset_id d platforms s =
      generated asset_id d.asset_type platforms s (assert_renderable d)
