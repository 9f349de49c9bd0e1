-- ===== src/Gateway/Metering.antt =====
-- What a generation costs.
use socialhub.Prelude.{
  ◌≡◌, refl, ◌+◌, Bool, true, false, Option, none, some, Result, ok, err, Bool-cases, inl, inr, ◌⊎◌,
  ◌==◌, if◌then◌else◌,
}
use text.Mathlib.Text.{◌==◌ as str_eq}
use socialhub.Schema.{RowId}
use socialhub.Gateway.{
  GatewayPorts, AiGenerationRequest, AiGenerationResult, AiUsageLog, ChatRequest, ChatCompletion,
  ProviderError, Answer, generate, generate_with, replied, completed, record_usage,
  handle_unavailable, usage_row, chat_request, is_refusal, content_of, is_quota_error,
}

abbrev pub row_of : RowId → AiUsageLog → Bool
row_of org_id u = u.org_id == org_id

module _ (ports : GatewayPorts) where
  -- The provider has answered the request with a text.
  abbrev pub Served : AiGenerationRequest → AiGenerationResult → Type 0
  Served r a =
      (create : ChatRequest → Result ProviderError ChatCompletion) × (c : ChatCompletion)
      × (ports.client ≡ some create)
      × (create (chat_request r) ≡ ok c)
      × (a.text ≡ ports.trim (content_of c.message))
      × (str_eq a.text "" ≡ false)

  abbrev pub Stubbed : AiGenerationResult → Type 0
  Stubbed a =
      (ports.allow_dev_stub ≡ true)
      × (a.model ≡ "dev-stub")
      × (a.input_tokens ≡ 0)
      × (a.output_tokens ≡ 0)

  -- One row for the organization, and none for another, where the row is written.
  abbrev pub Charged : (written : Bool) → AiGenerationRequest → (s t : ports.usage.State) → Type 0
  Charged false r s t = t ≡ s
  Charged true r s t =
      (org_id : RowId)
      → ports.usage.count t (row_of org_id)
        ≡ (if r.org_id == org_id then 1 else 0) + ports.usage.count s (row_of org_id)

  abbrev pub Metered :
      (written : Bool) → AiGenerationRequest → ports.usage.State → Answer ports → Type 0
  Metered written r s (err e, t) = t ≡ s
  Metered written r s (ok a, t) = (Stubbed a × (t ≡ s)) ⊎ (Served r a × Charged written r s t)

  unavailable-Metered :
      (written : Bool) (r : AiGenerationRequest) (s : ports.usage.State)
      → Metered written r s (handle_unavailable ports r, s)
  unfolding handle_unavailable
  unavailable-Metered written r s = elim (Bool-cases ports.allow_dev_stub) [
    | inl e ↦ rw e (inl ((refl, refl, refl, refl), refl))
    | inr e ↦ rw e refl
  ]

  record_usage-Charged :
      (written : Bool) (r : AiGenerationRequest) (c : ChatCompletion) (s : ports.usage.State)
      → Charged written r s (record_usage ports written r c s)
  unfolding record_usage
  record_usage-Charged false r c s = refl
  record_usage-Charged true r c s =
      λ org_id. ports.usage.count-create s (usage_row r c) (row_of org_id)

  completed-Metered :
      (written : Bool) (r : AiGenerationRequest) (s : ports.usage.State)
      (create : ChatRequest → Result ProviderError ChatCompletion) (c : ChatCompletion)
      → ports.client ≡ some create
      → create (chat_request r) ≡ ok c
      → Metered written r s (completed ports written r c s)
  unfolding completed
  completed-Metered written r s create c k e = elim (Bool-cases (is_refusal c.message)) [
    | inl d ↦ rw d refl
    | inr d ↦ elim (Bool-cases (str_eq (ports.trim (content_of c.message)) "")) [
      | inl z ↦ rw (d, z) refl
      | inr z ↦ rw (d, z) (inr ((create, c, k, e, refl, z), record_usage-Charged written r c s))
    ]
  ]

  replied-Metered :
      (written : Bool) (r : AiGenerationRequest) (s : ports.usage.State)
      (create : ChatRequest → Result ProviderError ChatCompletion)
      (a : Result ProviderError ChatCompletion)
      → ports.client ≡ some create
      → create (chat_request r) ≡ a
      → Metered written r s (replied ports written r s a)
  unfolding replied
  replied-Metered written r s create (ok c) k e = completed-Metered written r s create c k e
  replied-Metered written r s create (err x) k e = elim (Bool-cases (is_quota_error x)) [
    | inl q ↦ rw q (unavailable-Metered written r s)
    | inr q ↦ rw q refl
  ]

  client-Metered :
      (written : Bool) (r : AiGenerationRequest) (s : ports.usage.State)
      (o : Option (ChatRequest → Result ProviderError ChatCompletion))
      → ports.client ≡ o
      → Metered written r s (generate_with ports written r s o)
  unfolding generate_with
  client-Metered written r s none k = unavailable-Metered written r s
  client-Metered written r s (some create) k = replied-Metered written r s create _ k refl

  -- A generation that gives a text of the provider adds one usage row to the organization that
  -- asked, and none to another, unless the write of the row fails. A placeholder is given only
  -- outside production, and it and every error leave the usage as it is.
  pub generate-Metered :
      (written : Bool) (r : AiGenerationRequest) (s : ports.usage.State)
      → Metered written r s (generate ports written r s)
  unfolding generate
  generate-Metered written r s = client-Metered written r s _ refl
