-- ===== src/Endpoint/Profile.antt =====
-- internal/endpoint/profile.go: the two handlers, over any service.
use stage_sync.Base.{String, [], ◌==◌, string_eq, if◌then◌else◌}
use stage_sync.Runtime.{GoError, Action, Time, is_error}
use stage_sync.AppError.{validation, not_found, conflict, internal, write_json}
use stage_sync.Profile.{Profile}
use stage_sync.Endpoint.{
  Reply, replied, refused, Body, with_body, answer, invalid_json, status_ok, status_created,
}

pub record ProfileService (S : Type 0) : Type 0 where
  pub get_profile : String → Action S Profile
  pub create_profile : String → String → Action S Profile

pub record ProfileDto : Type 0 where
  pub id : String
  pub name : String
  pub created_at : Time

abbrev pub to_dto : Profile → ProfileDto
to_dto p = record { id = p.id; name = p.name; created_at = p.created_at }

pub record CreateReq : Type 0 where
  pub id : String
  pub name : String

abbrev pub get_error : String → GoError → GoError
get_error id e =
    if is_error e "profile.ErrNotFound" then not_found "profile" id else internal "get profile" e

abbrev pub create_error : GoError → GoError
create_error e =
    if is_error e "profile.ErrAlreadyExists"
    then conflict "profile already exists"
    else internal "create profile" e

module _ {S : Type 0} (service : ProfileService S) where
  -- `Get`
  unfoldable pub handle_get : String → S → Reply ProfileDto × S
  handle_get id s =
      if id == ""
      then (refused (write_json (validation "id path param is required" [])), s)
      else answer (get_error id) (λ p. replied status_ok (to_dto p)) (service.get_profile id) s

  -- `Create`
  unfoldable pub handle_create : Body CreateReq → S → Reply ProfileDto × S
  handle_create body = with_body invalid_json body (λ req.
      answer create_error (λ p. replied status_created (to_dto p))
        (service.create_profile req.id req.name))
