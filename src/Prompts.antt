-- ===== src/Prompts.antt =====
-- totalrecall/prompts: the messages that a provider is sent.
pub mod Redaction
pub mod Builder
pub mod Isolation
mod Examples
use totalrecall.Common.{List, [], ◌∷◌, ◌⊕◌, map}
use totalrecall.Common.Text.{String, ◌++◌, join, truthy}
use totalrecall.Common.{if◌then◌else◌}
use totalrecall.Generation.Models.{ValidationDiagnostic, validation_status_text}
use totalrecall.Providers.Models.{ProviderRole, ProviderMessage}

abbrev pub new_message : ProviderRole → String → ProviderMessage
new_message role content = record { role = role; content = content }

-- repair.py
unfoldable pub diagnostic_line : ValidationDiagnostic → String
diagnostic_line d =
    "- [" ++ (validation_status_text d.severity ++ ("] " ++ (d.code ++ (": " ++ d.message))))

unfoldable pub build_repair_messages :
    List ProviderMessage → String → List ValidationDiagnostic → List ProviderMessage
build_repair_messages original_messages original_raw_text diagnostics =
    let diagnostic_lines = join "\n" (map diagnostic_line diagnostics) in
    let repair_content =
      "The following validation errors were found in your previous response:\n\n"
      ++ (diagnostic_lines
          ++ ("\n\n"
              ++ "Please fix these issues and respond again with a corrected JSON artifact object. Do not include any text outside the JSON object.")) in
    original_messages
    ⊕ (new_message ProviderRole.assistant
          (if truthy original_raw_text then original_raw_text else "{}")
        ∷ new_message ProviderRole.user repair_content
        ∷ [])
