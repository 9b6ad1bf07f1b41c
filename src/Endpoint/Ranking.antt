-- ===== src/Endpoint/Ranking.antt =====
-- internal/endpoint/ranking.go: the two handlers, over any service.
use stage_sync.Base.{
  ℕ, String, List, [], ◌∷◌, Option, none, some, ◌==◌, string_eq, if◌then◌else◌, length,
}
use stage_sync.Base.Int.{ℤ, pos}
use stage_sync.Runtime.{GoError, Action, is_error}
use stage_sync.AppError.{validation, not_found, internal}
use stage_sync.Ranking.{Entry, default_top_n, default_around_radius}
use stage_sync.Endpoint.{Reply, replied, answer, status_ok}

pub record RankingService (S : Type 0) : Type 0 where
  pub top : String → ℤ → Action S (List Entry)
  pub around : String → String → ℤ → Action S (List Entry)
  pub rank : String → String → Action S Entry

pub record TopResponse : Type 0 where
  pub event_id : String
  pub count : ℕ
  pub entries : List Entry

pub record AroundResponse : Type 0 where
  pub event_id : String
  pub player_id : String
  pub rank : ℕ
  pub score : ℤ
  pub radius : ℤ
  pub entries : List Entry

-- `parseIntQueryDefault`, on the parameter as `strconv.Atoi` reads it.
abbrev pub parse_int_query_default : Option ℤ → ℤ → ℤ
parse_int_query_default none def = def
parse_int_query_default (some n) def = n

abbrev pub top_error : GoError → GoError
top_error e =
    if is_error e "ranking.ErrInvalidLimit"
    then validation "n out of range"
        (record { field = "n"; tag = "range"; message = "must be 1..100" } ∷ [])
    else internal "ranking top failed" e

abbrev pub around_error : String → GoError → GoError
around_error player_id e =
    if is_error e "ranking.ErrPlayerNotRanked"
    then not_found "ranking entry" player_id
    else if is_error e "ranking.ErrInvalidLimit"
    then validation "radius out of range"
        (record { field = "radius"; tag = "range"; message = "must be 0..25" } ∷ [])
    else internal "ranking around failed" e

-- The loop that finds the caller's own rank and score; 0 and 0 where it finds none.
unfoldable pub self_of : String → List Entry → ℕ × ℤ
self_of player_id [] = (0, pos 0)
self_of player_id (e ∷ es) =
    if e.player_id == player_id then (e.rank, e.score) else self_of player_id es

module _ {S : Type 0} (service : RankingService S) where
  -- `Top`; an entry is replied with all its fields.
  unfoldable pub handle_top : String → Option ℤ → S → Reply TopResponse × S
  handle_top event_id n =
      answer top_error
        (λ (es : List Entry).
          replied status_ok (record { event_id = event_id; count = length es; entries = es }))
        (service.top event_id (parse_int_query_default n default_top_n))

  -- `Around`
  unfoldable pub handle_around : String → String → Option ℤ → S → Reply AroundResponse × S
  handle_around event_id player_id radius_param =
      let radius = parse_int_query_default radius_param default_around_radius in
      answer (around_error player_id)
        (λ (es : List Entry). replied status_ok (record {
          event_id = event_id;
          player_id = player_id;
          rank = (self_of player_id es).0;
          score = (self_of player_id es).1;
          radius = radius;
          entries = es;
        }))
        (service.around event_id player_id radius)
