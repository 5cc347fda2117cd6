-- ===== src/Gateway/Errors.antt =====
-- How `LLMGateway` reads the text of a provider's exception (llm_gateway.py, `_retryable`,
-- `_configuration_error`).

use agentic_learning_platfor.Base.{Bool, List, [], ◌∷◌, any, Text, Unicode, codes, contains}

abbrev pub retry_markers : List Text
retry_markers =
    codes "timeout"
    ∷ codes "timed out"
    ∷ codes "connection"
    ∷ codes "temporarily"
    ∷ codes "rate limit"
    ∷ codes "429"
    ∷ codes "500"
    ∷ codes "502"
    ∷ codes "503"
    ∷ codes "504"
    ∷ codes "service unavailable"
    ∷ codes "overloaded"
    ∷ []

abbrev pub configuration_markers : List Text
configuration_markers =
    codes "unauthorized"
    ∷ codes "authentication"
    ∷ codes "invalid api key"
    ∷ codes "incorrect api key"
    ∷ codes "401"
    ∷ codes "forbidden"
    ∷ codes "invalid request"
    ∷ codes "unprocessable"
    ∷ codes "400"
    ∷ []

module _ (unicode : Unicode) where
  unfoldable pub retryable : Text → Bool
  retryable message = any (contains (unicode.lower message)) retry_markers

  unfoldable pub configuration_error : Text → Bool
  configuration_error message = any (contains (unicode.lower message)) configuration_markers
