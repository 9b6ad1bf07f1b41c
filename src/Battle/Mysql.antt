-- ===== src/Battle/Mysql.antt =====
-- internal/persistence/mysql/battle_repo.go: the repository in MySQL. `database/sql` is a parameter: its
-- statements on the table player_hp, each with its outcome.
use stage_sync.Base.{
  String, Bool, none, some, Option, ◌==◌, string_eq, if◌then◌else◌, ◌≡◌, ◌⊎◌, false,
}
use stage_sync.Base.Int.{ℤ}
use stage_sync.Runtime.{
  GoError, sentinel, wrap, is_error, Result, ok, err, Action, context, pure, ◌>>=◌, ◌>>◌,
}
use stage_sync.Battle.{PlayerHp, Repo, default_initial_hp, hit, err_not_found}
pub mod Statements
pub mod Atomic
mod Tests

-- `sql.ErrNoRows`
abbrev pub err_no_rows : GoError
err_no_rows = sentinel "sql.ErrNoRows" "sql: no rows in result set"

-- `D` is the database, `T` an open transaction: `BeginTx`, the three statements in a transaction,
-- `Commit` and `Rollback`, and the two statements without one.
pub record Sql (D T : Type 0) : Type 0 where
  pub begin_tx : Action D T
  pub select_for_update : String → Action T ℤ
  pub insert_hp : String → ℤ → Action T (Unit {0})
  pub update_hp : String → ℤ → Action T (Unit {0})
  pub commit : T → Action D (Unit {0})
  pub rollback : T → D → D
  pub select_hp : String → Action D PlayerHp
  pub upsert_hp : String → ℤ → Action D (Unit {0})

module _ {D T : Type 0} (sql : Sql D T) where
  -- The row's HP, or the default that is inserted where there is no row.
  unfoldable pub read_or_insert : String → Action T ℤ
  read_or_insert player_id t =
      let (r, t') = sql.select_for_update player_id t in
      elim r [
        | ok hp ↦ (ok hp, t')
        | err e ↦
            if is_error e "sql.ErrNoRows"
            then (context "insert hp" (sql.insert_hp player_id default_initial_hp)
                  >> pure default_initial_hp)
                t'
            else (err (wrap "select for update" e), t')
      ]

  -- The statements of the transaction.
  unfoldable pub in_tx : String → ℤ → Action T ℤ
  unfolding read_or_insert
  in_tx player_id damage = read_or_insert player_id >>= λ hp.
      context "update hp" (sql.update_hp player_id (hit hp damage)) >> pure (hit hp damage)

  -- `Commit`, where no statement failed, and the deferred `Rollback`.
  unfoldable pub end_tx : Result ℤ × T → Action D ℤ
  end_tx (err e, t) d = (err e, sql.rollback t d)
  end_tx (ok hp, t) d =
      let (c, d') = context "commit" (sql.commit t) d in
      (elim c [ ok u ↦ ok hp | err e ↦ err e ], sql.rollback t d')

  -- `ApplyDamageNaive`
  unfoldable pub apply_damage_naive : String → ℤ → Action D ℤ
  unfolding in_tx end_tx
  apply_damage_naive player_id damage =
      context "begin tx" sql.begin_tx >>= λ t. end_tx (in_tx player_id damage t)

  -- `Get`
  unfoldable pub get : String → Action D PlayerHp
  get player_id d =
      let (r, d') = sql.select_hp player_id d in
      (
        elim r [
          | ok p ↦ ok p
          | err e ↦ if is_error e "sql.ErrNoRows" then err err_not_found else err (wrap "select" e)
        ],
        d',
      )

  -- `Reset`
  abbrev pub reset : String → ℤ → Action D (Unit {0})
  reset player_id hp = context "reset hp" (sql.upsert_hp player_id hp)

  abbrev pub mysql_repo : Repo D
  mysql_repo = record { apply_damage_naive = apply_damage_naive; reset = reset; get = get }

-- A view after one row has been written.
abbrev pub written : String → ℤ → (String → Option ℤ) → String → Option ℤ
written p hp view q = if q == p then some hp else view q

-- What the documentation of MySQL promises of the rows that a database and a transaction show, in its
-- strict mode, where a value that does not fit is an error. The column player_id has a collation
-- that takes texts for equal that differ in case: `fold` is the key that it compares, and a row is
-- the row of a key. A transaction shows what was committed when it began, and what it has written since; its
-- statements change what others see only when it is committed. An error of `Commit` may come before
-- or after that; a rollback after a commit does nothing.
pub record SqlLaws {D T : Type 0} (sql : Sql D T) : Type 0 where
  pub fold : String → String
  pub committed : D → String → Option ℤ
  pub seen : T → String → Option ℤ
  pub begin_law : (d : D) (q : String) → committed (sql.begin_tx d).1 q ≡ committed d q
  pub begun_law :
      (d : D) (t : T) (q : String) → (sql.begin_tx d).0 ≡ ok t → seen t q ≡ committed d q
  pub select_law :
      (t : T) (p : String) (hp : ℤ)
      → (sql.select_for_update p t).0 ≡ ok hp
      → seen t (fold p) ≡ some hp
  pub select_none_law :
      (t : T) (p : String) (e : GoError)
      → (sql.select_for_update p t).0 ≡ err e
      → is_error e "sql.ErrNoRows" ≡ Bool.true
      → seen t (fold p) ≡ none
  pub select_seen_law : (t : T) (p q : String) → seen (sql.select_for_update p t).1 q ≡ seen t q
  pub insert_law :
      (t : T) (p q : String) (hp : ℤ) (u : Unit {0})
      → (sql.insert_hp p hp t).0 ≡ ok u
      → seen (sql.insert_hp p hp t).1 q ≡ written (fold p) hp (seen t) q
  pub update_law :
      (t : T) (p q : String) (hp old : ℤ) (u : Unit {0})
      → seen t (fold p) ≡ some old
      → (sql.update_hp p hp t).0 ≡ ok u
      → seen (sql.update_hp p hp t).1 q ≡ written (fold p) hp (seen t) q
  pub commit_law :
      (t : T) (d : D) (u : Unit {0}) (q : String)
      → (sql.commit t d).0 ≡ ok u
      → committed (sql.commit t d).1 q ≡ seen t q
  pub commit_error_law :
      (t : T) (d : D)
      → ((q : String) → committed (sql.commit t d).1 q ≡ committed d q)
        ⊎ ((q : String) → committed (sql.commit t d).1 q ≡ seen t q)
  pub rollback_law : (t : T) (d : D) (q : String) → committed (sql.rollback t d) q ≡ committed d q
