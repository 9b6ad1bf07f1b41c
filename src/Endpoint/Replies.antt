-- ===== src/Endpoint/Replies.antt =====
-- What the handlers of internal/endpoint reply over the in-memory services.
use stage_sync.Base.{
  ◌-◌, String, Bool, ◌&&◌, not, arith, true, false, Option, none, some, ◌≡◌, refl, ap, sym, subst,
  ◌∙◌, ◌⊎◌, inl, inr, ◌==◌, string_eq, if◌then◌else◌, Bool-cases, ltb,
}
use stage_sync.Base.Dict.{lookup}
use stage_sync.Base.Int.{ℤ, pos, negsuc, pos_part, leb_ℤ}
use stage_sync.Runtime.{ok, err, wrap, Result, context, Time, is_error}
use stage_sync.AppError.{status_of, write_json}
use stage_sync.Battle.{HpTable, is_invalid_damage, err_invalid_damage, v1_apply}
use stage_sync.Battle.Inmem.{inmem_repo, apply_damage_naive}
use stage_sync.Battle.Damage.{IsValid, hp_of, apply_damage_naive_lem}
use stage_sync.Event.{Event, LeaderboardWriter, status_at}
use stage_sync.Event.Repo
use stage_sync.Event.Repo.{EventRepo}
use stage_sync.Event.Service
use stage_sync.Event.Stored.{create_taken_lem}
use stage_sync.Endpoint.{
  Reply, replied, Body, undecodable, invalid, decoded, answer_result, reply_status, status_ok,
}
use stage_sync.Endpoint.Battle.{DamageReq, DamageResp, damage_error, handle_damage}
use stage_sync.Endpoint.Event.{
  EventService, CreateEventReq, create_input, create_error, event_to_dto, handle_create,
}

-- The direct battle service over its table, behind the handler.
abbrev pub post_damage : Time → Body DamageReq → HpTable → Reply DamageResp × HpTable
post_damage now body m = handle_damage (v1_apply (inmem_repo now)) "v1-naive" body m

abbrev damage_answer : DamageReq → Result ℤ → Reply DamageResp
damage_answer req r =
    answer_result damage_error
      (λ hp.
        replied status_ok (record { player_id = req.target_player; hp = hp; impl = "v1-naive" }))
      r

v1_refused :
    (now : Time) (p : String) (damage : ℤ) (m : HpTable)
    → is_invalid_damage damage ≡ true
    → v1_apply (inmem_repo now) p damage m ≡ (err err_invalid_damage, m)
unfolding v1_apply
v1_refused now p damage m h = rw (v1_apply, h) refl

v1_accepted :
    (now : Time) (p : String) (damage : ℤ) (m : HpTable)
    → is_invalid_damage damage ≡ false
    → v1_apply (inmem_repo now) p damage m
      ≡ context "apply damage naive" (apply_damage_naive p damage) m
unfolding v1_apply
v1_accepted now p damage m h = rw (v1_apply, h) refl

-- A body that is a request with a damage of 1 to 100000.
abbrev pub is_fit : Body DamageReq → Bool
is_fit (undecodable text) = false
is_fit (invalid vs) = false
is_fit (decoded req) = leb_ℤ (pos 1) req.damage && leb_ℤ req.damage (pos 100_000)

fit_damage :
    (damage : ℤ)
    → (leb_ℤ (pos 1) damage && leb_ℤ damage (pos 100_000)) ≡ not (is_invalid_damage damage)
fit_damage (pos n) = ground arith
fit_damage (negsuc n) = ground arith

-- Whatever the body of a damage request, over a table of HPs in range: either it is no request with a
-- damage of 1 to 100000, the reply has status 400 and the table stays as it is; or it is one, the reply has status 200 and the
-- HP that is left to its target, never below 0, the table has that HP for the target and what it had
-- for every other player, and every HP stays in range.
pub post_damage_lem :
    (now : Time) (body : Body DamageReq) (m : HpTable) (q : String)
    → IsValid m
    → ((is_fit body ≡ false)
        × (reply_status (post_damage now body m).0 ≡ 400)
        × ((post_damage now body m).1 ≡ m))
      ⊎ ((req : DamageReq) × (body ≡ decoded req)
          × (is_fit body ≡ true)
          × ((post_damage now body m).0
              ≡ replied 200 (record {
                player_id = req.target_player;
                hp = pos (hp_of m req.target_player - pos_part req.damage);
                impl = "v1-naive";
              }))
          × (lookup q (post_damage now body m).1 ≡ (
              if q == req.target_player
              then some (pos (hp_of m req.target_player - pos_part req.damage))
              else lookup q m))
          × IsValid (post_damage now body m).1)
unfolding handle_damage write_json status_of string_eq is_error
post_damage_lem now (undecodable text) m q v = inl (refl, refl, refl)
post_damage_lem now (invalid none) m q v = inl (refl, refl, refl)
post_damage_lem now (invalid (some vs)) m q v = inl (refl, refl, refl)
post_damage_lem now (decoded req) m q v = elim (Bool-cases (is_invalid_damage req.damage)) [
  | inl out ↦
      let refusal = v1_refused now req.target_player req.damage m out in
      inl (
        fit_damage req.damage ∙ ap not out,
        ap (λ r. reply_status (damage_answer req r.0)) refusal,
        ap (λ r. r.1) refusal,
      )
  | inr accepted ↦
      let (answered, looked, valid) =
        apply_damage_naive_lem req.target_player req.damage m v accepted in
      let applied =
        v1_accepted now req.target_player req.damage m accepted
        ∙ ap
            (λ r. (
              elim r as (λ _. Result ℤ) [
                | ok hp ↦ ok hp
                | err e ↦ err (wrap "apply damage naive" e)
              ],
              (apply_damage_naive req.target_player req.damage m).1,
            ))
            answered in
      inr (
        req,
        refl,
        fit_damage req.damage ∙ ap not accepted,
        ap (λ r. damage_answer req r.0) applied,
        ap (λ r. lookup q r.1) applied ∙ looked q,
        subst (λ (r : Result ℤ × HpTable). IsValid r.1) (sym applied) valid,
      )
]

-- The event service over the repository in memory, as the handlers use it.
abbrev pub event_service :
    {L W : Type 0}
    → Option (LeaderboardWriter L)
    → (W → Time × W)
    → Time
    → EventService (EventRepo × L × W)
event_service lb now t = record {
  create = Service.create (Repo.inmem_repo t) lb now;
  get = Service.get (Repo.inmem_repo t) lb now;
  list_current = Service.list_current (Repo.inmem_repo t) lb now;
  add_score = Service.service_add_score (Repo.inmem_repo t) lb now;
  get_score = Service.service_get_score (Repo.inmem_repo t) lb now;
  get_rewards = Service.get_rewards (Repo.inmem_repo t) lb now;
}

-- A request to create an event with a start before its end, under an ID that is stored, gets status
-- 409 and changes neither store.
pub handle_create_taken_lem :
    {L W : Type 0} (lb : Option (LeaderboardWriter L)) (now : W → Time × W) (t : Time)
    (req : CreateEventReq) (e : Event) (r : EventRepo) (l : L) (w : W)
    → ltb req.start_at req.end_at ≡ true
    → lookup req.id r.events ≡ some e
    → (reply_status (handle_create (event_service lb now t) t (decoded req) (r, l, w)).0 ≡ 409)
      × ((handle_create (event_service lb now t) t (decoded req) (r, l, w)).1 ≡ (r, l, (now w).1))
unfolding handle_create write_json status_of string_eq is_error
handle_create_taken_lem lb now t req e r l w window taken =
    let refusal = create_taken_lem lb now t (create_input req) e r l w window taken in
    (
      ap
          (λ x. reply_status (
            answer_result create_error (λ (e : Event). replied 201 (event_to_dto e (status_at e t)))
              x.0))
          refusal,
      ap (λ x. x.1) refusal,
    )
