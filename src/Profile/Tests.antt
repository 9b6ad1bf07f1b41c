-- ===== src/Profile/Tests.antt =====
-- A profile that others try to replace.
use stage_sync.Base.{List, [], ◌∷◌, ◌≡◌, refl, string_eq}
use stage_sync.Base.Dict.{lookup}
use stage_sync.Runtime.{ok}
use stage_sync.Profile.{
  ProfileRepo, CreateCall, inmem_repo, new_profile, create_profile, get_profile, after_creates,
  create_get_lem,
}

abbrev later : List CreateCall
later = (8, "ann", "Anna") ∷ (9, "bob", "Bob") ∷ []

create_get_lem_example :
    (r' : ProfileRepo) × (create_profile inmem_repo 7 "ann" "Ann" []
      ≡ (ok (new_profile 7 "ann" "Ann"), r'))
    × ((get_profile inmem_repo "ann" (after_creates later r')).0 ≡ ok (new_profile 7 "ann" "Ann"))
unfolding lookup
create_get_lem_example = create_get_lem 7 "ann" "Ann" later [] refl
