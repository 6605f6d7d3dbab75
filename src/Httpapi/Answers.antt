-- ===== src/Httpapi/Answers.antt =====
-- internal/httpapi/server.go: the answers of the handlers that are no stream.
use cofiswarm_dispatch.Prelude.{ℕ, Text, codes}
use cofiswarm_dispatch.Json.{Value, text, object, end, field}

-- A JSON body, the text of `http.Error`, bytes that are passed on, or a panic, which the HTTP server turns into a closed connection.
pub data Response : Type 0 where
  json : (status : ℕ) → Value → Response
  plain : (status : ℕ) → Text → Response
  copied : (status : ℕ) → Text → Response
  panicked : Response

-- The bodies of the errors.
unfoldable pub budget_denied : (mode reason : Text) → Response
budget_denied mode reason = json 429 (
    object (
      field (codes "error") (text (codes "kv_token_budget_exceeded"))
        (field (codes "reason") (text reason) (field (codes "mode") (text mode) end))))

unfoldable pub empty_prompt : Response
empty_prompt = json 400 (object (field (codes "error") (text (codes "empty prompt")) end))

unfoldable pub post_only : Response
post_only = plain 405 (codes "POST only")
