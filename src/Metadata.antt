-- ===== src/Metadata.antt =====
-- totalrecall/metadata/extractor.py: what a plan is made for, read off a request. `lower` and `strip` are
-- Python's functions on texts, and `search` is the search of a regular expression.
pub mod Paths
mod Examples
use totalrecall.Common.{
  ℕ, Bool, true, false, ◌&&◌, ◌||◌, not, Option, none, some, List, [], ◌∷◌, map, filter,
  if◌then◌else◌,
}
use totalrecall.Common
use totalrecall.Common.Text.{String, ◌++◌, ◌==◌, truthy, contains, sorted}
use totalrecall.Common.Text
use totalrecall.Generation.Models.{
  Language, Framework, GenerationRequest, GenerationTarget, language_text, framework_text,
}
use totalrecall.Context.Models.{RequestMetadata, TargetStackResolution}
use Prim.Native.Char.{code}

unfoldable pub is_known_combination : Language → Framework → Bool
is_known_combination Language.typescript Framework.playwright = true
is_known_combination Language.python Framework.pytest = true
is_known_combination Language.java Framework.junit = true
is_known_combination Language.java Framework.testng = true
is_known_combination _ _ = false

-- The expressions, each with its word.
abbrev pub intent_rules : List (String × String)
intent_rules =
    ("\\b(log(?:ging)?[- ]?in|sign(?:ing)?[ -]?in|authenticate|auth(?:entication)?)\\b", "login")
    ∷ ("\\b(log(?:ging)?[- ]?out|sign(?:ing)?[ -]?out)\\b", "logout")
    ∷ ("\\b(register|sign(?:ing)?[ -]?up|creat[e]?\\s+account)\\b", "registration")
    ∷ ("\\b(search|filter|sort|find|lookup)\\b", "search")
    ∷ ("\\b(checkout|payment|billing|pay)\\b", "checkout")
    ∷ ("\\b(cart|basket|shopping)\\b", "cart")
    ∷ ("\\b(order|purchase|buy)\\b", "order")
    ∷ ("\\b(upload|download|import|export)\\b", "file_transfer")
    ∷ ("\\b(creat[e]?|add|new|submit)\\b", "create")
    ∷ ("\\b(edit|updat[e]?|modif[y]?|chang[e]?)\\b", "update")
    ∷ ("\\b(delet[e]?|remov[e]?)\\b", "delete")
    ∷ ("\\b(navig[a]?t[e]?|redirect|go\\s+to)\\b", "navigation")
    ∷ ("\\b(verif[y]?|validat[e]?|assert|confirm|check)\\b", "validation")
    ∷ ("\\b(profile|account|settings|preferences)\\b", "profile")
    ∷ ("\\b(dashboard|overview|home|landing)\\b", "dashboard")
    ∷ ("\\b(list|table|grid|paginate?|pagination)\\b", "listing")
    ∷ ("\\b(modal|dialog|popup|overlay)\\b", "modal")
    ∷ ("\\b(notification|alert|message|toast)\\b", "notification")
    ∷ []

abbrev pub is_slash : ℕ → Bool
is_slash c = Common.◌==◌ c 47

-- `s.startswith("/")` and `s.rstrip("/")`
unfoldable pub starts_with_slash : String → Bool
starts_with_slash String.[] = false
starts_with_slash (String.◌∷◌ c s) = is_slash (code c)

unfoldable pub strip_slashes : String → String
unfolding truthy
strip_slashes String.[] = ""
strip_slashes (String.◌∷◌ c s) =
    let rest = strip_slashes s in
    if not (truthy rest) && is_slash (code c) then "" else String.◌∷◌ c rest

-- The rest of `_normalize_route`, on a text that was stripped and is not empty.
unfoldable pub normalize_path : String → String
unfolding starts_with_slash strip_slashes
normalize_path route =
    let rooted = if starts_with_slash route then route else String.◌∷◌ "/" route in
    if rooted == "/" then rooted else strip_slashes rooted

-- The rules whose expression is found, without repetitions, in order.
unfoldable pub found_words : (String → Bool) → List (String × String) → List String
unfolding contains
found_words found [] = []
found_words found ((pattern, keyword) ∷ rules) =
    let words = found_words found rules in
    if found pattern && not (contains keyword words) then keyword ∷ words else words

unfoldable pub resolve_target_stack : GenerationTarget → TargetStackResolution × List String
unfolding is_known_combination
resolve_target_stack target =
    let is_known = is_known_combination target.language target.framework in
    (
      record {
        language = target.language;
        framework = target.framework;
        pattern = target.pattern;
        locator_strategy = target.locator_strategy;
        is_known_combination = is_known;
      },
      if is_known
          then []
          else ("Unknown language/framework combination: "
              ++ (language_text target.language
                  ++ ("/"
                      ++ (framework_text target.framework
                          ++ ". No matching skill may be available."))))
            ∷ [],
    )

module _ (lower strip : String → String) (search : String → String → Bool) where
  unfoldable pub normalize_route : Option String → Option String
  unfolding normalize_path
  normalize_route none = none
  normalize_route (some route) =
      if truthy (strip route) && truthy route then some (normalize_path (strip route)) else none

  unfoldable pub extract_intent : String → List String
  unfolding found_words
  extract_intent prompt =
      sorted (found_words (λ pattern. search pattern (lower prompt)) intent_rules)

  unfoldable pub extract : GenerationRequest → RequestMetadata
  unfolding normalize_route extract_intent resolve_target_stack
  extract request =
      let stack = resolve_target_stack request.target in
      record {
        domain = lower (strip request.scope.domain);
        route = normalize_route request.scope.route;
        test_intent = extract_intent request.prompt;
        target_stack = stack.0;
        warnings = stack.1;
      }
