-- ===== src/Endpoint/RateLimit.antt =====
-- internal/endpoint/ratelimit.go: the middleware and the identity that it limits.
-- `net.SplitHostPort` is a parameter, which gives the host or an error.
use Prim.Native.Char.{code}
use stage_sync.Base.{
  String, ◌<>◌, List, [], ◌∷◌, Option, none, some, ◌==◌, string_eq, nat_eq, if◌then◌else◌,
}
use stage_sync.Base.Header.{trim_space}
use stage_sync.Auth.{player_id_from}
use stage_sync.RateLimit.{Rate, Buckets, Limiter, Call, allow}
use stage_sync.Idempotency.Middleware.{WriteOp, write_header, write}
use stage_sync.Runtime.{Time}
use stage_sync.Endpoint.Http.{HttpRequest}

-- `xff[:strings.Index(xff, ",")]`, where there is a comma.
unfoldable pub before_comma : String → Option String
before_comma String.[] = none
before_comma (String.◌∷◌ c s) =
    let rest = before_comma s in
    if code c == 44
    then some String.[]
    else elim rest [ none ↦ none | some t ↦ some (String.◌∷◌ c t) ]

-- The address that the header `X-Forwarded-For` begins with: a comma at its start does not count.
unfoldable pub first_address : String → String
first_address xff = elim (before_comma xff) [
  | none ↦ trim_space xff
  | some first ↦ if first == "" then trim_space xff else trim_space first
]

-- The identity of a request without a player.
unfoldable pub address_of : (String → Option String) → HttpRequest → String
unfolding first_address
address_of split_host_port r =
    if r.x_forwarded_for == ""
    then (if r.x_real_ip == ""
        then "ip:"
          <> (elim (split_host_port r.remote_addr) [ none ↦ r.remote_addr | some host ↦ host ])
        else "ip:" <> r.x_real_ip)
    else "ip:" <> first_address r.x_forwarded_for

-- `identityOf`
unfoldable pub identity_of : (String → Option String) → HttpRequest → String
unfolding address_of
identity_of split_host_port r = elim (player_id_from r.ctx) [
  | none ↦ address_of split_host_port r
  | some player ↦ if player == "" then address_of split_host_port r else "player:" <> player
]

abbrev pub too_many_requests : List WriteOp
too_many_requests =
    write_header 429
    ∷ write "{\"code\":\"RATE_LIMITED\",\"message\":\"too many requests — retry later\"}\n"
    ∷ []

module _ {F L S R : Type 0} (rate : Rate F L) (split_host_port : String → Option String)
    (reply : List WriteOp → R) (next : HttpRequest → S → R × S) where
  -- `RateLimit`; no limiter is a nil one, and the times are what the limiter's clocks read.
  unfoldable pub rate_limit :
      Option (Limiter F) → Time → Time → HttpRequest → Buckets L × S → R × (Buckets L × S)
  rate_limit none seen at r (buckets, s) = let (a, s') = next r s in (a, (buckets, s'))
  rate_limit (some lim) seen at r (buckets, s) =
      let call : Call = record { seen = seen; at = at; identity = identity_of split_host_port r } in
      let (allowed, buckets') = allow rate lim call buckets in
      if allowed
      then (let (a, s') = next r s in (a, (buckets', s')))
      else (reply too_many_requests, (buckets', s))
