-- ===== src/Endpoint/Chain/Tests.antt =====
-- Two requests to the gacha routes with one idempotency key, the second one without a token.
use stage_sync.Base.{String, [], Option, none, some, ◌≡◌, refl, string_eq}
use stage_sync.Base.Dict.{lookup}
use stage_sync.Auth.Tests.{clock, validator}
use stage_sync.Auth.Tests.Plain.{plain_jwt}
use stage_sync.RateLimit.{allow}
use stage_sync.RateLimit.Tests.{no_refill, limiter}
use stage_sync.Idempotency.{Entries}
use stage_sync.Idempotency.Middleware.{written, replayed}
use stage_sync.Idempotency.Replay.{sent_entry}
use stage_sync.Endpoint.Http.{HttpRequest, with_authorization}
use stage_sync.Endpoint.Auth.{require_auth}
use stage_sync.Endpoint.Auth.Tests.{counted, post}
use stage_sync.Endpoint.Chain.Order.{gacha_route, call_of, replayed_to_any_lem, IsKeyedWrite}

abbrev split_host_port : String → Option String
split_host_port addr = none

abbrev no_token : HttpRequest
no_token = with_authorization "" post

keyed : IsKeyedWrite post
unfolding string_eq
keyed = record { outside = refl; keyed = refl }

keyed_again : IsKeyedWrite no_token
unfolding string_eq
keyed_again = record { outside = refl; keyed = refl }

replayed_to_any_lem_example :
    (entries' : Entries) × (gacha_route no_refill split_host_port plain_jwt clock 10 limiter
        (some validator)
        counted
        1
        1
        post
        ([], (([], 3), (5, 0)))
      ≡ (
        written (require_auth plain_jwt counted (some validator) post (5, 0)).0,
        (
          (allow no_refill limiter (call_of split_host_port post 1 1) []).1,
          ((entries', 3), (require_auth plain_jwt counted (some validator) post (5, 0)).1),
        ),
      ))
    × ((gacha_route no_refill split_host_port plain_jwt clock 10 limiter
          (some validator)
          counted
          2
          2
          no_token
          ([], ((entries', 4), (6, 0))))
        ≡ (
          replayed (sent_entry (require_auth plain_jwt counted (some validator) post (5, 0)).0),
          (
            (allow no_refill limiter (call_of split_host_port no_token 2 2) []).1,
            ((entries', 4), (6, 0)),
          ),
        ))
unfolding lookup string_eq allow
replayed_to_any_lem_example =
    replayed_to_any_lem no_refill split_host_port plain_jwt clock 10 limiter (some validator)
      counted post no_token 1 1 2 2 [] [] [] 3 4 (5, 0) (6, 0) keyed keyed_again refl refl refl refl
      refl
