-- ===== src/Profile.antt =====
-- internal/domain/profile, internal/persistence/inmem/profile_repo.go and
-- internal/service/profile/service.go.
use stage_sync.Base.{
  String, List, [], ◌∷◌, Option, none, some, ◌≡◌, refl, ap, ◌∙◌, arith, ◌==◌, string_eq,
  if◌then◌else◌, ==_refl, eq_of_==, inl, inr, Option-cases,
}
use stage_sync.Base.Dict.{Dict, lookup, insert, lookup-insert, lookup-insert_self}
use stage_sync.Runtime.{
  GoError, sentinel, ok, err, Action, Time, context, pure, bind_ok, context_ok, context-state, ◌>>◌,
}
pub mod Mysql
mod Tests

pub record Profile : Type 0 where
  pub id : String
  pub name : String
  pub created_at : Time

abbrev pub err_not_found : GoError
err_not_found = sentinel "profile.ErrNotFound" "profile not found"

abbrev pub err_already_exists : GoError
err_already_exists = sentinel "profile.ErrAlreadyExists" "profile already exists"

pub record Repository (S : Type 0) : Type 0 where
  pub get : String → Action S Profile
  pub create : Profile → Action S (Unit {0})

-- `ProfileRepo.items`. A stored profile is not changed through its pointer.
abbrev pub ProfileRepo : Type 0
ProfileRepo = Dict String Profile

abbrev pub new_profile_repo : ProfileRepo
new_profile_repo = []

unfoldable pub get : String → Action ProfileRepo Profile
get id r = (elim (lookup id r) [ none ↦ err err_not_found | some p ↦ ok p ], r)

unfoldable pub create : Profile → Action ProfileRepo (Unit {0})
create p r = elim (lookup p.id r) [
  | some old ↦ (err err_already_exists, r)
  | none ↦ (ok tt, insert p.id p r)
]

abbrev pub inmem_repo : Repository ProfileRepo
inmem_repo = record { get = get; create = create }

abbrev pub new_profile : Time → String → String → Profile
new_profile now id name = record { id = id; name = name; created_at = now }

-- `GetProfile`
unfoldable pub get_profile : {S : Type 0} → Repository S → String → Action S Profile
get_profile repo id = context "repo get" (repo.get id)

-- `CreateProfile`; `now` is what `time.Now` returns.
unfoldable pub create_profile :
    {S : Type 0} → Repository S → Time → String → String → Action S Profile
create_profile repo now id name =
    context "repo create" (repo.create (new_profile now id name)) >> pure (new_profile now id name)

-- A call of `CreateProfile`: its time, ID and name.
abbrev pub CreateCall : Type 0
CreateCall = Time × String × String

abbrev pub after_creates : List CreateCall → ProfileRepo → ProfileRepo
after_creates [] r = r
after_creates ((now, id, name) ∷ calls) r =
    after_creates calls (create_profile inmem_repo now id name r).1

create-kept :
    (id : String) (p q : Profile) (r : ProfileRepo)
    → lookup id r ≡ some p
    → lookup id (create q r).1 ≡ some p
unfolding create
create-kept id p q r h = elim (Option-cases (lookup q.id r)) [
  | inl fresh ↦ rw (create, fresh) (ground (arith, lookup-insert id q.id q r, eq_of_== id q.id))
  | inr (old, taken) ↦ rw (create, taken) h
]

create_profile-state :
    (now : Time) (id name : String) (r : ProfileRepo)
    → (create_profile inmem_repo now id name r).1 ≡ (create (new_profile now id name) r).1
unfolding create_profile
create_profile-state now id name r =
    context-state "repo create" (create (new_profile now id name)) (new_profile now id name) r

after_creates-kept :
    (id : String) (p : Profile) (calls : List CreateCall) (r : ProfileRepo)
    → lookup id r ≡ some p
    → lookup id (after_creates calls r) ≡ some p
after_creates-kept id p [] r h = h
after_creates-kept id p ((now, id', name) ∷ calls) r h =
    after_creates-kept id p calls (create_profile inmem_repo now id' name r).1 (
      ap (lookup id) (create_profile-state now id' name r)
      ∙ create-kept id p (new_profile now id' name) r h)

create-eq :
    (p : Profile) (r : ProfileRepo) → lookup p.id r ≡ none → create p r ≡ (ok tt, insert p.id p r)
unfolding create
create-eq p r h = rw (create, h) refl

get-eq : (id : String) (p : Profile) (r : ProfileRepo) → lookup id r ≡ some p → get id r ≡ (ok p, r)
unfolding get
get-eq id p r h = rw (get, h) refl

-- A profile that is created under an ID that was not taken is what `GetProfile` answers for the ID,
-- whatever profiles further calls create or try to create, under that ID or another.
pub create_get_lem :
    (now : Time) (id name : String) (later : List CreateCall) (r : ProfileRepo)
    → lookup id r ≡ none
    → (r' : ProfileRepo) × (create_profile inmem_repo now id name r
        ≡ (ok (new_profile now id name), r'))
      × ((get_profile inmem_repo id (after_creates later r')).0 ≡ ok (new_profile now id name))
unfolding get_profile create_profile
create_get_lem now id name later r fresh =
    let p = new_profile now id name in
    let stored = after_creates-kept id p later (insert id p r) (lookup-insert_self id p r) in
    (
      insert id p r,
      bind_ok (context "repo create" (create p)) (λ _. pure p) r (insert id p r) tt
          (context_ok "repo create" (create p) r (insert id p r) tt (create-eq p r fresh)),
      ap (λ x. x.0)
          (context_ok "repo get" (get id) (after_creates later (insert id p r))
            (after_creates later (insert id p r)) p
            (get-eq id p (after_creates later (insert id p r)) stored)),
    )
