-- ===== src/Runtime/Errors.antt =====
-- Go's `error` interface as the values that this program makes, and `errors.Is`.
use stage_sync.Base.{String, ◌<>◌, Bool, false, List, ◌≡◌, refl, ◌==◌, string_eq}

-- `apperror.Code`
abbrev pub Code : Type 0
Code = String

-- `apperror.FieldError`
pub record FieldError : Type 0 where
  pub field : String
  pub tag : String
  pub message : String

-- `sentinel` is a package variable made by `errors.New`: its name stands for its identity, and its
-- text is what it prints. `other` is any error of a library that wraps nothing this program names.
-- `wrap` is `fmt.Errorf("…: %w", err)` and `noted` is `fmt.Errorf("%w: …", err)`. The last two are `*apperror.Error`, without and with a cause.
pub data GoError : Type 0 where
  sentinel : String → String → GoError
  other : String → GoError
  wrap : String → GoError → GoError
  noted : GoError → String → GoError
  app : Code → String → List FieldError → GoError
  app_caused : Code → String → List FieldError → GoError → GoError

-- `errors.Is(err, target)` for a sentinel `target`, given by its name.
unfoldable pub is_error : GoError → String → Bool
is_error (sentinel name text) target = name == target
is_error (other text) target = false
is_error (wrap context e) target = is_error e target
is_error (noted e note) target = is_error e target
is_error (app code message fields) target = false
is_error (app_caused code message fields cause) target = is_error cause target

-- `err.Error()`, for `*apperror.Error` lines 35-40 of apperror.go.
unfoldable pub error_text : GoError → String
error_text (sentinel name text) = text
error_text (other text) = text
error_text (wrap context e) = context <> ": " <> error_text e
error_text (noted e note) = error_text e <> ": " <> note
error_text (app code message fields) = code <> ": " <> message
error_text (app_caused code message fields cause) =
    code <> ": " <> message <> " (cause: " <> error_text cause <> ")"

-- Wrapping keeps what `errors.Is` finds.
pub is_error-wrap :
    (context : String) (e : GoError) (target : String)
    → is_error (wrap context e) target ≡ is_error e target
unfolding is_error
is_error-wrap context e target = refl
