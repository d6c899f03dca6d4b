-- ===== src/TestGen/Examples.antt =====
-- totalrecall/testgen: a request that passes, an answer that does not, and a short text.
use totalrecall.Common.{Bool, false, ◌&&◌, not, none, List, [], ◌∷◌, ◌≡◌, refl}
use totalrecall.Common.Text.{String, includes, contains}
use totalrecall.Common.Dict
use totalrecall.Common.Json.{Json, entries}
use totalrecall.Common.Json
use totalrecall.Common.Outcome.{Outcome, ok}
use totalrecall.Generation.Samples.{request}
use totalrecall.TestGen.Guardrails.{
  GuardrailResult, bad_key, mentions_testing, check_input, check_output,
}
use totalrecall.TestGen.Screening.{has_pii, check_input-passed, check_output-unlisted}

abbrev search : String → String → Bool
search pattern text = includes "@" text

abbrev lower : String → String
lower text = text

check_input-passed_example : (check_input search search lower request none).passed ≡ (
    not (bad_key search search lower request.jira_key)
    && (mentions_testing search search lower request.prompt
        && not (has_pii search search lower request)))
check_input-passed_example = check_input-passed search search lower request none

abbrev fields : Json.Fields
fields = Json.field "source_jira_key" (Json.str "SHOP-1") Json.end

abbrev loads : String → Outcome Json
loads text = ok (Json.obj fields)

abbrev dumps : Json → String
dumps payload = "{}"

abbrev list_text : List String → String
list_text names = "[...]"

check_output-unlisted_example :
    (r : GuardrailResult) × (check_output search search loads dumps list_text "{}" ≡ ok r)
    × (r.passed ≡ false)
unfolding contains Dict.has Dict.get entries
check_output-unlisted_example =
    check_output-unlisted search search loads dumps list_text "{}" fields "source_jira_key" refl
      refl refl

abbrev two_words : List String
two_words = "log" ∷ "in" ∷ []
