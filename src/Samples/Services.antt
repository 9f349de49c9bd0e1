-- ===== src/Samples/Services.antt =====
-- A generation of text, a design's renditions, and a user's notifications.
use socialhub.Prelude.{true, false, none, some, ok, [], ◌∷◌}
use socialhub.Database.Rows.{rows}
use socialhub.Database.Slots.{stored}
use socialhub.Gateway.{GatewayPorts, AiGenerationRequest, AiUsageLog, generate, caption}
use socialhub.Gateway.Metering.{Metered, generate-Metered}
use socialhub.Notifications.{Notification, publish_failed}
use socialhub.Notifications.Private.{read_all, remove, served_all, KeptOrOwn, served_all-KeptOrOwn}
use socialhub.Variants.{Variant, Design, AssetType, Urls, generate as generate_variants}

-- A provider that always answers.
abbrev gateway_ports : GatewayPorts
gateway_ports = record {
  usage = rows;
  client = some (λ request. ok (record {
    message = some (record { refusal = none; content = some "hello" });
    prompt_tokens = some 3;
    completion_tokens = some 1;
    model = "gpt-4o-mini";
  }));
  allow_dev_stub = false;
  trim = λ s. s;
  dev_stub_text = λ f. "stub";
}

abbrev generation : AiGenerationRequest
generation = record {
  org_id = 7;
  user_id = some 2;
  feature = caption;
  system_prompt = "Write a caption.";
  user_prompt = "A cat.";
  max_tokens = none;
}

unfoldable no_usage : (rows {Row = AiUsageLog}).State
unfolding rows
no_usage = []

generate-Metered_example :
    Metered gateway_ports true generation no_usage (generate gateway_ports true generation no_usage)
generate-Metered_example = generate-Metered gateway_ports true generation no_usage

abbrev notification : Notification
notification = record {
  user_id = 2;
  notification_type = publish_failed;
  title = "Post failed";
  body = "A post was not published.";
  link_path = none;
  read_at = none;
}

unfoldable inbox : (rows {Row = Notification}).State
unfolding rows
inbox = stored (notification ∷ record notification { user_id = 3 } ∷ [])

served_all-KeptOrOwn_example :
    KeptOrOwn rows 2
      (rows.find inbox 0)
      (rows.find (served_all rows 2 inbox (read_all 1000 ∷ remove 0 ∷ remove 1 ∷ [])) 0)
served_all-KeptOrOwn_example =
    served_all-KeptOrOwn rows 2 0 inbox (read_all 1000 ∷ remove 0 ∷ remove 1 ∷ [])

abbrev urls : Urls
urls = record { image_url = λ id w h. some id; video_url = λ id w h d. some id }

abbrev drawn : Design
drawn = record {
  asset_type = AssetType.image;
  master_image_public_id = some "design-1";
  layers = some 2;
}

unfoldable no_variants : (rows {Row = Variant}).State
unfolding rows
no_variants = []
