-- ===== src/Endpoint/Chain/Order.antt =====
-- cmd/server/main.go: what follows from the order of the middlewares.
use stage_sync.Base.{
  ◌+◌, String, ◌<>◌, true, false, Option, none, some, ◌≡◌, refl, ap, sym, ◌∙◌, string_eq, ltb,
}
use stage_sync.Base.Dict.{lookup, lookup-insert_self}
use stage_sync.Runtime.{Time}
use stage_sync.Auth.{Jwt, Validator}
use stage_sync.RateLimit.{Rate, Buckets, Limiter, Call, allow}
use stage_sync.Idempotency.{InmemEntry, Entries, inmem_store}
use stage_sync.Idempotency.Middleware.{
  Response, replayed, written, is_passed_through, scoped_idempotency_key,
}
use stage_sync.Idempotency.Replay.{sent_entry, stored_entries, first_request, repeated_request}
use stage_sync.Endpoint.Http.{HttpRequest, Handler}
use stage_sync.Endpoint.Auth.{require_auth}
use stage_sync.Endpoint.RateLimit.{rate_limit, identity_of}
use stage_sync.Endpoint.Chain.{idempotency_request, idempotency, protected_route}

-- A request that comes from outside: no middleware has put claims into its context, it has a key, and
-- it is neither GET nor HEAD.
pub record IsKeyedWrite (r : HttpRequest) : Type 0 where
  pub outside : r.ctx ≡ none
  pub keyed : is_passed_through (idempotency_request r) ≡ false

-- The limiter's call for a request.
abbrev pub call_of : (String → Option String) → HttpRequest → Time → Time → Call
call_of split_host_port r seen at = record {
  seen = seen;
  at = at;
  identity = identity_of split_host_port r;
}

module _ {F L C W H : Type 0} (rate : Rate F L) (split_host_port : String → Option String)
    (jwt : Jwt W) (now : C → Time × C) (ttl : Time) (lim : Limiter F)
    (validator : Option (Validator W)) (next : Handler H) where
  -- The gacha routes over the store in memory.
  abbrev pub gacha_route :
      Time
      → Time
      → HttpRequest
      → Buckets L × ((Entries × C) × (W × H))
      → Response × (Buckets L × ((Entries × C) × (W × H)))
  gacha_route =
      protected_route rate split_host_port jwt (some lim) (some (inmem_store now ttl)) validator
        next

  within_limit :
      (r : HttpRequest) (seen at : Time) (b : Buckets L) (s : (Entries × C) × (W × H))
      → (allow rate lim (call_of split_host_port r seen at) b).0 ≡ true
      → gacha_route seen at r (b, s) ≡ (
        (idempotency (some (inmem_store now ttl)) (require_auth jwt next validator) r s).0,
        (
          (allow rate lim (call_of split_host_port r seen at) b).1,
          (idempotency (some (inmem_store now ttl)) (require_auth jwt next validator) r s).1,
        ),
      )
  unfolding protected_route rate_limit
  within_limit r seen at b s allowed = rw (allowed) refl

  anonymous :
      (r : HttpRequest)
      → r.ctx ≡ none
      → scoped_idempotency_key (idempotency_request r).player r.idempotency_key
        ≡ "anon:" <> r.idempotency_key
  anonymous r outside = rw (outside) refl

  -- Two requests from outside with the same idempotency key, neither GET nor HEAD, to gacha routes
  -- behind the middlewares of the server, both within their limits; the key is not stored when the
  -- first one comes, and its entry has not expired when the second one comes. Whatever the `Authorization`
  -- header, the path and the body of the second one, it is replied what the first one was, and neither
  -- its token is looked at nor its handler run.
  pub replayed_to_any_lem :
      (r r' : HttpRequest) (seen at seen' at' : Time) (b b' : Buckets L) (entries : Entries)
      (c c' : C) (s s' : W × H)
      → IsKeyedWrite r
      → IsKeyedWrite r'
      → r'.idempotency_key ≡ r.idempotency_key
      → lookup ("anon:" <> r.idempotency_key) entries ≡ none
      → ltb ((now c).0 + ttl) (now c').0 ≡ false
      → (allow rate lim (call_of split_host_port r seen at) b).0 ≡ true
      → (allow rate lim (call_of split_host_port r' seen' at') b').0 ≡ true
      → (entries' : Entries) × (gacha_route seen at r (b, ((entries, c), s)) ≡ (
        written (require_auth jwt next validator r s).0,
        (
          (allow rate lim (call_of split_host_port r seen at) b).1,
          ((entries', (now c).1), (require_auth jwt next validator r s).1),
        ),
      ))
        × (gacha_route seen' at' r' (b', ((entries', c'), s')) ≡ (
          replayed (sent_entry (require_auth jwt next validator r s).0),
          (
            (allow rate lim (call_of split_host_port r' seen' at') b').1,
            ((entries', (now c').1), s'),
          ),
        ))
  replayed_to_any_lem r r' seen at seen' at' b b' entries c c' s s' k k' same fresh alive allowed
        allowed' =
      let guarded = require_auth jwt next validator in
      let key = anonymous r k.outside in
      let key' = anonymous r' k'.outside ∙ ap (λ i. "anon:" <> i) same in
      let ops = (guarded r s).0 in
      let e : InmemEntry = record { entry = sent_entry ops; expires_at = (now c).0 + ttl } in
      let entries' =
        stored_entries now (λ _. guarded r) ttl (idempotency_request r) ops (now c).0 entries in
      (
        entries',
        within_limit r seen at b ((entries, c), s) allowed
            ∙ ap
                (λ (x : Response × (Entries × C) × (W × H)).
                  (x.0, ((allow rate lim (call_of split_host_port r seen at) b).1, (x.1, x.2))))
                (first_request now (λ _. guarded r) ttl (idempotency_request r) entries c s k.keyed
                  (ap (λ i. lookup i entries) key ∙ fresh)),
        within_limit r' seen' at' b' ((entries', c'), s') allowed'
            ∙ ap
                (λ (x : Response × (Entries × C) × (W × H)).
                  (x.0, ((allow rate lim (call_of split_host_port r' seen' at') b').1, (x.1, x.2))))
                (repeated_request now (λ _. guarded r') ttl (idempotency_request r') e entries' c'
                  s' k'.keyed
                  (ap (λ i. lookup i entries') (key' ∙ sym key)
                    ∙ lookup-insert_self
                        (scoped_idempotency_key (idempotency_request r).player r.idempotency_key) e
                        entries)
                  alive),
      )
