-- ===== src/Adapter/Kiro/Blocks.antt =====
-- The text of a Kiro answer, internal/adapter/kiro.go.
use Prim.Native.String.{◌++◌ as concat}
use text.Mathlib.TextLemmas.{nil-append, append-nil, append_assoc}
use llmapi_gate_way.Common.{
  String, ◌≡◌, refl, sym, ◌∙◌, inl, inr, Bool, some, List, [], ◌∷◌, ◌==◌, Bool-cases, keep,
}
use llmapi_gate_way.Common.Int.{pos, ◌+ℤ◌}
use llmapi_gate_way.Common.Result.{done}
use llmapi_gate_way.Adapter.Types.{UpstreamResponse, Choice, Json, Clock}
use llmapi_gate_way.Adapter.Kiro.{
  KiroContent, KiroResponse, text_from, of_kiro_response, convert_response,
}

abbrev pub is_text : KiroContent → Bool
is_text c = c.type == "text"

-- The texts of some blocks, end to end.
abbrev pub joined : List KiroContent → String
joined [] = ""
joined (c ∷ cs) = concat c.text (joined cs)

text_from-joined :
    (content : String) (cs : List KiroContent)
    → text_from content cs ≡ concat content (joined (keep is_text cs))
unfolding text_from
text_from-joined content [] = sym (append-nil content)
text_from-joined content (c ∷ cs) = elim (Bool-cases (is_text c)) [
  | inl text ↦
      rw (text, keep, text_from-joined (concat content c.text) cs)
        (append_assoc content c.text (joined (keep is_text cs)))
  | inr other ↦ rw (other, keep) (text_from-joined content cs)
]

-- An answer that decodes is converted to one choice, whose text is that of the answer's text blocks
-- in their order, and whose total of tokens is the sum of the two counts; blocks of other types are
-- left out. The finish reason is always "stop" and the model always "kiro".
pub convert_response-joined :
    (json : Json KiroResponse) (clock : Clock) (resp : UpstreamResponse) (r : KiroResponse)
    → json.unmarshal resp.body ≡ done r
    → (c : Choice) × (convert_response json clock (some resp) ≡ done (of_kiro_response clock r))
      × ((of_kiro_response clock r).choices ≡ c ∷ [])
      × (c.message.content ≡ joined (keep is_text r.content))
      × (c.finish_reason ≡ "stop")
      × ((of_kiro_response clock r).model ≡ "kiro")
      × ((of_kiro_response clock r).usage.total_tokens
          ≡ r.usage.input_tokens +ℤ r.usage.output_tokens)
unfolding convert_response
convert_response-joined json clock resp r read = (
  record {
    index = pos 0;
    message = record { role = "assistant"; content = text_from "" r.content };
    finish_reason = "stop";
  },
  rw (read, convert_response) refl,
  refl,
  text_from-joined "" r.content ∙ nil-append (joined (keep is_text r.content)),
  refl,
  refl,
  refl,
)
