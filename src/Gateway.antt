-- ===== src/Gateway.antt =====
-- backend/src/ai/ai-gateway.service.ts: one generation, and the usage row that it leaves.
pub mod Metering
use socialhub.Prelude.{
  ℕ, String, Bool, true, false, Option, none, some, Result, ok, err, ◌==◌, if◌then◌else◌,
}
use text.Mathlib.Text.{◌==◌ as str_eq}
use socialhub.Schema.{RowId}
use socialhub.Database.{Table}

pub data AiFeature : Type 0 where
  caption hashtags tone viral_score best_time : AiFeature

pub record AiGenerationRequest : Type 0 where
  pub org_id : RowId
  pub user_id : Option RowId
  pub feature : AiFeature
  pub system_prompt : String
  pub user_prompt : String
  pub max_tokens : Option ℕ

pub record AiGenerationResult : Type 0 where
  pub text : String
  pub input_tokens : ℕ
  pub output_tokens : ℕ
  pub model : String

pub record AiUsageLog : Type 0 where
  pub org_id : RowId
  pub user_id : Option RowId
  pub feature : AiFeature
  pub input_tokens : ℕ
  pub output_tokens : ℕ
  pub model : String

-- The body that is sent: the two turns stay apart.
pub record ChatRequest : Type 0 where
  pub model : String
  pub max_tokens : ℕ
  pub system_content : String
  pub user_content : String

pub record ChatMessage : Type 0 where
  pub refusal : Option String
  pub content : Option String

pub record ChatCompletion : Type 0 where
  -- choices[0]?.message
  pub message : Option ChatMessage
  -- usage?.prompt_tokens and usage?.completion_tokens
  pub prompt_tokens : Option ℕ
  pub completion_tokens : Option ℕ
  pub model : String

-- What the provider's client throws: its status and its code, where they are there.
pub record ProviderError : Type 0 where
  pub status : Option ℕ
  pub code : Option String

-- The 503s, by their message.
pub data GatewayError : Type 0 where
  not_configured temporarily_unavailable declined empty_response : GatewayError

pub record GatewayPorts : Type 1 where
  pub usage : Table AiUsageLog
  -- `client`, where an API key is set
  pub client : Option (ChatRequest → Result ProviderError ChatCompletion)
  -- NODE_ENV is neither production nor staging
  pub allow_dev_stub : Bool
  pub trim : String → String
  -- DEV_STUB_TEXT, with its default
  pub dev_stub_text : AiFeature → String

-- MODEL.
abbrev pub gateway_model : String
gateway_model = "gpt-4o-mini"

abbrev pub or_zero : Option ℕ → ℕ
or_zero none = 0
or_zero (some n) = n

abbrev pub or_empty : Option String → String
or_empty none = ""
or_empty (some s) = s

abbrev pub chat_request : AiGenerationRequest → ChatRequest
chat_request r = record {
  model = gateway_model;
  max_tokens = elim r.max_tokens [ none ↦ 1024 | some n ↦ n ];
  system_content = r.system_prompt;
  user_content = r.user_prompt;
}

-- `status === 429 || code === 'insufficient_quota'`
unfoldable pub is_quota_error : ProviderError → Bool
is_quota_error e =
    if (elim e.status [ none ↦ false | some s ↦ s == 429 ])
    then true
    else elim e.code [ none ↦ false | some c ↦ str_eq c "insufficient_quota" ]

-- `message?.refusal`, where an empty one counts as none.
abbrev pub is_refusal : Option ChatMessage → Bool
is_refusal none = false
is_refusal (some m) = elim m.refusal [ none ↦ false | some s ↦ if str_eq s "" then false else true ]

abbrev pub content_of : Option ChatMessage → String
content_of none = ""
content_of (some m) = or_empty m.content

abbrev pub usage_row : AiGenerationRequest → ChatCompletion → AiUsageLog
usage_row r c = record {
  org_id = r.org_id;
  user_id = r.user_id;
  feature = r.feature;
  input_tokens = or_zero c.prompt_tokens;
  output_tokens = or_zero c.completion_tokens;
  model = c.model;
}

module _ (ports : GatewayPorts) where
  abbrev pub Answer : Type 0
  Answer = Result GatewayError AiGenerationResult × ports.usage.State

  unfoldable pub handle_unavailable : AiGenerationRequest → Result GatewayError AiGenerationResult
  handle_unavailable r =
      if ports.allow_dev_stub
      then ok (record {
        text = ports.dev_stub_text r.feature;
        input_tokens = 0;
        output_tokens = 0;
        model = "dev-stub";
      })
      else err not_configured

  -- A write that fails is logged, and nothing is written. `written` is whether it goes through.
  unfoldable pub record_usage :
      (written : Bool)
      → AiGenerationRequest
      → ChatCompletion
      → ports.usage.State
      → ports.usage.State
  record_usage written r c s = if written then (ports.usage.create s (usage_row r c)).1 else s

  unfoldable pub completed :
      (written : Bool) → AiGenerationRequest → ChatCompletion → ports.usage.State → Answer
  completed written r c s =
      if is_refusal c.message
      then (err declined, s)
      else if str_eq (ports.trim (content_of c.message)) ""
      then (err empty_response, s)
      else (
        ok (record {
          text = ports.trim (content_of c.message);
          input_tokens = or_zero c.prompt_tokens;
          output_tokens = or_zero c.completion_tokens;
          model = c.model;
        }),
        record_usage written r c s,
      )

  unfoldable pub replied :
      (written : Bool)
      → AiGenerationRequest
      → ports.usage.State
      → Result ProviderError ChatCompletion
      → Answer
  replied written r s (ok c) = completed written r c s
  replied written r s (err e) =
      if is_quota_error e then (handle_unavailable r, s) else (err temporarily_unavailable, s)

  unfoldable pub generate_with :
      (written : Bool)
      → AiGenerationRequest
      → ports.usage.State
      → Option (ChatRequest → Result ProviderError ChatCompletion)
      → Answer
  generate_with written r s none = (handle_unavailable r, s)
  generate_with written r s (some create) = replied written r s (create (chat_request r))

  unfoldable pub generate : (written : Bool) → AiGenerationRequest → ports.usage.State → Answer
  generate written r s = generate_with written r s ports.client
