-- ===== src/Battle/Mysql/Atomic.antt =====
-- internal/persistence/mysql/battle_repo.go: a hit is stored as the repository in memory stores it, or
-- not at all.
use stage_sync.Base.{
  String, some, ◌≡◌, refl, ap, ap₂, subst, sym, ◌∙◌, ◌==◌, string_eq, if◌then◌else◌, ◌⊎◌, inl, inr,
}
use stage_sync.Base.Dict.{lookup, lookup-insert}
use stage_sync.Base.Int.{ℤ}
use stage_sync.Runtime.{
  GoError, Result, ok, err, wrap, Result-cases, context, bind_ok, bind_err, context_ok, context_err,
}
use stage_sync.Battle.{HpTable, start_hp, hit}
use stage_sync.Battle.Inmem
use stage_sync.Battle.Mysql.Statements.{in_tx_cases}
use stage_sync.Battle.Mysql.{Sql, SqlLaws, in_tx, end_tx, apply_damage_naive}

module _ {D T : Type 0} (sql : Sql D T) (laws : SqlLaws sql) where
  -- The database has committed what the table has, for every key of the collation.
  abbrev pub Shows : D → HpTable → Type 0
  Shows d m = (q : String) → laws.committed d q ≡ lookup q m

  -- The end of a transaction whose `Commit` has answered an error.
  abbrev pub IsCommitError : D → Type 0
  IsCommitError d' =
      (t : T) × (d : D) × (e : GoError) × ((sql.commit t d).0 ≡ err e)
      × (sql.rollback t (sql.commit t d).1 ≡ d')

  -- A hit is answered and stored as in memory, or refused and stored not at all or wholly.
  abbrev AllOrNothing : String → ℤ → HpTable → Result ℤ × D → Type 0
  AllOrNothing p damage m r =
      ((hp : ℤ) × (r.0 ≡ ok hp)
        × ((Inmem.apply_damage_naive (laws.fold p) damage m).0 ≡ ok hp)
        × Shows r.1 (Inmem.apply_damage_naive (laws.fold p) damage m).1)
      ⊎ ((e : GoError) × (r.0 ≡ err e)
          × (Shows r.1 m
              ⊎ (IsCommitError r.1
                  × Shows r.1 (Inmem.apply_damage_naive (laws.fold p) damage m).1)))

  commit_ok :
      (hp : ℤ) (t : T) (d : D) (u : Unit {0})
      → (sql.commit t d).0 ≡ ok u
      → end_tx sql (ok hp, t) d ≡ (ok hp, sql.rollback t (sql.commit t d).1)
  unfolding end_tx
  commit_ok hp t d u k = rw (end_tx, k) refl

  commit_err :
      (hp : ℤ) (t : T) (d : D) (e : GoError)
      → (sql.commit t d).0 ≡ err e
      → end_tx sql (ok hp, t) d ≡ (err (wrap "commit" e), sql.rollback t (sql.commit t d).1)
  unfolding end_tx
  commit_err hp t d e k = rw (end_tx, k) refl

  -- A transaction that shows the table after the hit, at its end.
  committed_cases :
      (p : String) (damage : ℤ) (m : HpTable) (d : D) (t : T)
      → Shows d m
      → ((q : String)
          → laws.seen t q ≡ lookup q (Inmem.apply_damage_naive (laws.fold p) damage m).1)
      → AllOrNothing p damage m
          (end_tx sql (ok (hit (start_hp (lookup (laws.fold p) m)) damage), t) d)
  unfolding Inmem.apply_damage_naive
  committed_cases p damage m d t shows seen =
      let left = hit (start_hp (lookup (laws.fold p) m)) damage in
      let d' = (sql.commit t d).1 in
      elim (Result-cases (sql.commit t d).0) [
        | inl (u, k) ↦ subst (AllOrNothing p damage m) (sym (commit_ok left t d u k)) (
            inl (
              left,
              refl,
              refl,
              λ q. laws.rollback_law t d' q ∙ laws.commit_law t d u q k ∙ seen q,
            ))
        | inr (e, k) ↦ subst (AllOrNothing p damage m) (sym (commit_err left t d e k)) (
            inr (
              wrap "commit" e,
              refl,
              elim (laws.commit_error_law t d) [
                | inl before ↦ inl (λ q. laws.rollback_law t d' q ∙ before q ∙ shows q)
                | inr after ↦
                    inr ((t, d, e, k, refl), λ q. laws.rollback_law t d' q ∙ after q ∙ seen q)
              ],
            ))
      ]

  ended_cases :
      (p : String) (damage : ℤ) (m : HpTable) (d : D) (t : T)
      → Shows d m
      → ((q : String) → laws.seen t q ≡ lookup q m)
      → AllOrNothing p damage m (end_tx sql (in_tx sql p damage t) d)
  unfolding end_tx Inmem.apply_damage_naive
  ended_cases p damage m d t shows begun =
      let t' = (in_tx sql p damage t).1 in
      elim (in_tx_cases sql laws p damage t) [
        | inr (e, failed) ↦
            subst (AllOrNothing p damage m) (sym (ap (λ r. end_tx sql (r, t') d) failed))
              (inr (e, refl, inl (λ q. laws.rollback_law t' d q ∙ shows q)))
        | inl (answered, seen) ↦
            let start = ap start_hp (begun (laws.fold p)) in
            subst (AllOrNothing p damage m)
              (sym
                (ap (λ r. end_tx sql (r, t') d) (answered ∙ ap (λ hp. ok (hit hp damage)) start)))
              (committed_cases p damage m d t' shows (λ q.
                seen q
                ∙ ap₂ (λ hp o. if q == laws.fold p then some (hit hp damage) else o) start (begun q)
                ∙ sym (
                    lookup-insert q (laws.fold p) (hit (start_hp (lookup (laws.fold p) m)) damage)
                      m)))
      ]

  begun_tx :
      (p : String) (damage : ℤ) (d : D) (t : T)
      → (sql.begin_tx d).0 ≡ ok t
      → apply_damage_naive sql p damage d ≡ end_tx sql (in_tx sql p damage t) (sql.begin_tx d).1
  unfolding apply_damage_naive
  begun_tx p damage d t h =
      let d1 = (sql.begin_tx d).1 in
      bind_ok (context "begin tx" sql.begin_tx) (λ t. end_tx sql (in_tx sql p damage t)) d d1 t
        (context_ok "begin tx" sql.begin_tx d d1 t (ap (λ r. (r, d1)) h))

  begin_failed :
      (p : String) (damage : ℤ) (d : D) (e : GoError)
      → (sql.begin_tx d).0 ≡ err e
      → apply_damage_naive sql p damage d ≡ (err (wrap "begin tx" e), (sql.begin_tx d).1)
  unfolding apply_damage_naive
  begin_failed p damage d e h =
      let d1 = (sql.begin_tx d).1 in
      bind_err (context "begin tx" sql.begin_tx) (λ t. end_tx sql (in_tx sql p damage t)) d d1
        (wrap "begin tx" e) (context_err "begin tx" sql.begin_tx d d1 e (ap (λ r. (r, d1)) h))

  -- Over a database that shows the HPs of a table by the keys of its collation, a hit on a player either
  -- answers the HP that the repository in memory answers to a hit on the key of the player's ID, and
  -- the database shows the table that this leaves; or it answers an error, and the database shows the
  -- table as it was, or, where `Commit` answered an error, as the hit leaves it: never anything between.
  pub mysql_atomic_lem :
      (p : String) (damage : ℤ) (d : D) (m : HpTable)
      → Shows d m
      → ((hp : ℤ) × ((apply_damage_naive sql p damage d).0 ≡ ok hp)
          × ((Inmem.apply_damage_naive (laws.fold p) damage m).0 ≡ ok hp)
          × Shows
              (apply_damage_naive sql p damage d).1
              (Inmem.apply_damage_naive (laws.fold p) damage m).1)
        ⊎ ((e : GoError) × ((apply_damage_naive sql p damage d).0 ≡ err e)
            × (Shows (apply_damage_naive sql p damage d).1 m
                ⊎ (IsCommitError (apply_damage_naive sql p damage d).1
                    × Shows
                        (apply_damage_naive sql p damage d).1
                        (Inmem.apply_damage_naive (laws.fold p) damage m).1)))
  mysql_atomic_lem p damage d m shows =
      let d1 = (sql.begin_tx d).1 in
      let shown : Shows d1 m = λ q. laws.begin_law d q ∙ shows q in
      elim (Result-cases (sql.begin_tx d).0) [
        | inr (e, h) ↦
            subst (AllOrNothing p damage m) (sym (begin_failed p damage d e h))
              (inr (wrap "begin tx" e, refl, inl shown))
        | inl (t, h) ↦
            subst (AllOrNothing p damage m) (sym (begun_tx p damage d t h))
              (ended_cases p damage m d1 t shown (λ q. laws.begun_law d t q h ∙ shows q))
      ]
