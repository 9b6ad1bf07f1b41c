-- ===== src/AppError.antt =====
-- internal/apperror: the error that a client sees, and its HTTP status.
mod Tests
use stage_sync.Base.{
  ℕ, String, ◌<>◌, Bool, List, [], ◌∷◌, Option, none, some, ◌≡◌, refl, ◌⊎◌, inl, inr, arith, ◌==◌,
  string_eq, if◌then◌else◌, Option-cases,
}
use stage_sync.Runtime.{
  GoError, sentinel, other, wrap, noted, app, app_caused, Code, FieldError, is_error,
}

abbrev pub code_validation : Code
code_validation = "VALIDATION_FAILED"

abbrev pub code_not_found : Code
code_not_found = "NOT_FOUND"

abbrev pub code_conflict : Code
code_conflict = "CONFLICT"

abbrev pub code_internal : Code
code_internal = "INTERNAL"

-- `apperror.Error`, as JSON shows it: the cause is not exported.
pub record AppError : Type 0 where
  pub code : Code
  pub message : String
  pub fields : List FieldError

abbrev pub validation : String → List FieldError → GoError
validation msg fields = app code_validation msg fields

abbrev pub not_found : String → String → GoError
not_found resource id = app code_not_found (resource <> " not found: " <> id) []

abbrev pub conflict : String → GoError
conflict msg = app code_conflict msg []

abbrev pub internal : String → GoError → GoError
internal msg cause = app_caused code_internal msg [] cause

-- `StatusOf`
unfoldable pub status_of : Code → ℕ
unfolding string_eq
status_of code =
    if code == code_validation
    then 400
    else if code == code_not_found
    then 404
    else if code == code_conflict
    then 409
    else if code == code_internal
    then 500
    else 500

-- `errors.As(err, &appErr)`: the first `*apperror.Error` of the chain.
pub as_app : GoError → Option AppError
as_app (sentinel name text) = none
as_app (other text) = none
as_app (wrap context e) = as_app e
as_app (noted e note) = as_app e
as_app (app code message fields) = some (record { code = code; message = message; fields = fields })
as_app (app_caused code message fields cause) =
    some (record { code = code; message = message; fields = fields })

-- What `WriteJSON` sends: a status and the error in the body.
pub record ErrorReply : Type 0 where
  pub status : ℕ
  pub error : AppError

abbrev write_app_err : AppError → ErrorReply
write_app_err e = record { status = status_of e.code; error = e }

unfoldable pub write_json : GoError → ErrorReply
unfolding as_app
write_json e = elim (as_app e) [
  | some a ↦ write_app_err a
  | none ↦ write_app_err (record { code = code_internal; message = "internal error"; fields = [] })
]

status_of_cases :
    (c : Code)
    → (status_of c ≡ 400) ⊎ (status_of c ≡ 404) ⊎ (status_of c ≡ 409) ⊎ (status_of c ≡ 500)
unfolding status_of
status_of_cases c = ground arith

-- Whatever the error, the reply has one of the four error statuses 400, 404, 409 and 500.
pub write_json_status :
    (e : GoError)
    → ((write_json e).status ≡ 400)
      ⊎ ((write_json e).status ≡ 404)
      ⊎ ((write_json e).status ≡ 409)
      ⊎ ((write_json e).status ≡ 500)
unfolding write_json
write_json_status e = elim (Option-cases (as_app e)) [
  | inl h ↦ rw (h, write_json) (status_of_cases code_internal)
  | inr (a, h) ↦ rw (h, write_json) (status_of_cases a.code)
]

-- An error in whose chain no `*apperror.Error` stands is reported as 500 with the fixed text
-- "internal error" and no fields, so nothing of it reaches the client.
pub write_json_unclassified :
    (e : GoError)
    → as_app e ≡ none
    → write_json e ≡ record {
      status = 500;
      error = record { code = "INTERNAL"; message = "internal error"; fields = [] };
    }
unfolding write_json status_of
write_json_unclassified e h = rw (h, write_json)

-- Wrapping an error by `%w` changes neither the status nor the body that a client gets.
pub write_json-wrap : (context : String) (e : GoError) → write_json (wrap context e) ≡ write_json e
unfolding write_json
write_json-wrap context e = refl
