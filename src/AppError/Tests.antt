-- ===== src/AppError/Tests.antt =====
-- Runs of the error replies.
use stage_sync.Base.{◌≡◌, refl}
use stage_sync.Runtime.{wrap, other}
use stage_sync.AppError.{write_json, not_found, status_of}

not_found_status : (write_json (not_found "event" "e1")).status ≡ 404
unfolding write_json status_of
not_found_status = refl

unclassified_status : (write_json (wrap "repo" (other "boom"))).status ≡ 500
unfolding write_json status_of
unclassified_status = refl
