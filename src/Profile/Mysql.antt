-- ===== src/Profile/Mysql.antt =====
-- internal/persistence/mysql/profile_repo.go: the repository in MySQL, over the generated queries. The
-- driver's type of an error, and its number, are a test that is a parameter.
use stage_sync.Base.{String, Bool, if◌then◌else◌}
use stage_sync.Runtime.{GoError, wrap, is_error, Result, ok, err, Action}
use stage_sync.Profile.{Profile, Repository, err_not_found, err_already_exists}

-- The generated queries; a row has the fields of a profile.
pub record Queries (D : Type 0) : Type 0 where
  pub get_profile : String → Action D Profile
  pub create_profile : Profile → Action D (Unit {0})

-- What `Get` and `Create` make of an error.
unfoldable pub get_outcome : Result Profile → Result Profile
get_outcome (ok row) = ok row
get_outcome (err e) =
    if is_error e "sql.ErrNoRows" then err err_not_found else err (wrap "queries.GetProfile" e)

unfoldable pub create_outcome : (GoError → Bool) → Result (Unit {0}) → Result (Unit {0})
create_outcome is_duplicate (ok u) = ok u
create_outcome is_duplicate (err e) =
    if is_duplicate e then err err_already_exists else err (wrap "queries.CreateProfile" e)

module _ {D : Type 0} (queries : Queries D) (is_duplicate : GoError → Bool) where
  -- `Get`
  unfoldable pub mysql_get : String → Action D Profile
  unfolding get_outcome
  mysql_get id d = let (row, d') = queries.get_profile id d in (get_outcome row, d')

  -- `Create`
  unfoldable pub mysql_create : Profile → Action D (Unit {0})
  unfolding create_outcome
  mysql_create p d = let (u, d') = queries.create_profile p d in (create_outcome is_duplicate u, d')

  abbrev pub mysql_repo : Repository D
  mysql_repo = record { get = mysql_get; create = mysql_create }
