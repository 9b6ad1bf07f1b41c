-- ===== src/Endpoint.antt =====
-- internal/endpoint: what the handlers share. `json.Decode` and the validator are libraries: a body
-- comes as what they make of it. A handler changes the service's state and gives a reply.
use stage_sync.Base.{
  ℕ, String, ◌<>◌, Bool, List, [], ◌∷◌, Option, none, some, ◌==◌, string_eq, if◌then◌else◌, map,
}
use stage_sync.Runtime.{GoError, FieldError, Action, ok, err, Result}
use stage_sync.AppError.{ErrorReply, validation, write_json}
pub mod Event
pub mod Gacha
pub mod Ranking
pub mod Battle
pub mod Profile
pub mod Replies
pub mod Http
pub mod Auth
pub mod RateLimit
pub mod Chain
pub mod Operations
pub mod Observed
mod Tests

-- A reply with a status and a body, or an error as `apperror.WriteJSON` sends it.
pub data Reply (A : Type 0) : Type 0 where
  replied : ℕ → A → Reply A
  refused : ErrorReply → Reply A

abbrev pub status_ok : ℕ
status_ok = 200

abbrev pub status_created : ℕ
status_created = 201

-- One failed rule of the validator.
pub record Violation : Type 0 where
  pub field : String
  pub tag : String
  pub param : String

-- A body that does not decode, with the decoder's text; one that breaks rules (none, where the
-- validator returns another error); or a good one.
pub data Body (A : Type 0) : Type 0 where
  undecodable : String → Body A
  invalid : Option (List Violation) → Body A
  decoded : A → Body A

-- `humanizeFieldError`
unfoldable pub humanize_field_error : Violation → String
humanize_field_error v =
    if v.tag == "required"
    then v.field <> " is required"
    else if v.tag == "min"
    then v.field <> (" is too short (min=" <> (v.param <> ")"))
    else if v.tag == "max"
    then v.field <> (" is too long (max=" <> (v.param <> ")"))
    else v.field <> (" is invalid (" <> (v.tag <> ")"))

-- `toValidationError`
abbrev pub to_validation_error : Option (List Violation) → GoError
to_validation_error none = validation "validation failed" []
to_validation_error (some vs) =
    validation "input validation failed"
      (map (λ v. record { field = v.field; tag = v.tag; message = humanize_field_error v }) vs)

-- The end of a handler: the service's error is translated, its value replied.
abbrev pub answer_result : {A B : Type 0} → (GoError → GoError) → (A → Reply B) → Result A → Reply B
answer_result translate reply (ok a) = reply a
answer_result translate reply (err e) = refused (write_json (translate e))

module _ {S A B : Type 0} where
  -- The start of a handler with a body: `undecoded` is its error for one that does not decode.
  abbrev pub with_body : (String → GoError) → Body A → (A → S → Reply B × S) → S → Reply B × S
  with_body undecoded (undecodable text) k s = (refused (write_json (undecoded text)), s)
  with_body undecoded (invalid vs) k s = (refused (write_json (to_validation_error vs)), s)
  with_body undecoded (decoded a) k s = k a s

  abbrev pub answer : (GoError → GoError) → (A → Reply B) → Action S A → S → Reply B × S
  answer translate reply m s = let (r, s') = m s in (answer_result translate reply r, s')

abbrev pub invalid_json : String → GoError
invalid_json text = validation "invalid JSON body" []

abbrev pub reply_status : {A : Type 0} → Reply A → ℕ
reply_status (replied status a) = status
reply_status (refused e) = e.status
