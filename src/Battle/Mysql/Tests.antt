-- ===== src/Battle/Mysql/Tests.antt =====
-- A database that is its table, and the theorem on it.
use stage_sync.Base.{
  String, Option, none, some, [], ◌∷◌, ◌≡◌, refl, ap, sym, ◌⊎◌, inr, string_eq, ◌==◌, if◌then◌else◌,
  arith,
}
use stage_sync.Base.Dict.{lookup, insert, lookup-insert}
use stage_sync.Base.Int.{ℤ, pos}
use stage_sync.Runtime.{GoError, Result, ok, err}
use stage_sync.Battle.{HpTable, PlayerHp}
use stage_sync.Battle.Inmem
use stage_sync.Battle.Mysql.{Sql, SqlLaws, err_no_rows, apply_damage_naive}
use stage_sync.Battle.Mysql.Atomic.{Shows, IsCommitError, mysql_atomic_lem}

abbrev or_no_rows : Option ℤ → Result ℤ
or_no_rows none = err err_no_rows
or_no_rows (some hp) = ok hp

abbrev player_row : String → Option ℤ → Result PlayerHp
player_row p none = err err_no_rows
player_row p (some hp) = ok (record { player_id = p; hp = hp; updated_at = 0 })

-- A collation that takes "ANN" for "ann".
abbrev key : String → String
key p = if p == "ANN" then "ann" else p

-- A transaction is a copy of the table.
abbrev table : Sql HpTable HpTable
table = record {
  begin_tx = λ d. (ok d, d);
  select_for_update = λ p t. (or_no_rows (lookup (key p) t), t);
  insert_hp = λ p hp t. (ok tt, insert (key p) hp t);
  update_hp = λ p hp t. (ok tt, insert (key p) hp t);
  commit = λ t d. (ok tt, t);
  rollback = λ t d. d;
  select_hp = λ p d. (player_row p (lookup (key p) d), d);
  upsert_hp = λ p hp d. (ok tt, insert (key p) hp d);
}

found_row : (o : Option ℤ) (hp : ℤ) → or_no_rows o ≡ ok hp → o ≡ some hp
found_row none hp h = ground arith
found_row (some old) hp h = ground arith

no_row : (o : Option ℤ) (e : GoError) → or_no_rows o ≡ err e → o ≡ none
no_row none e h = refl
no_row (some old) e h = ground arith

same_table : (d t : HpTable) → Path (Result HpTable) (ok d) (ok t) → d ≡ t
same_table d t h = ap (λ (r : Result HpTable). elim r [ ok x ↦ x | err e ↦ d ]) h

laws : SqlLaws table
laws = record {
  fold = key;
  committed = λ d q. lookup q d;
  seen = λ t q. lookup q t;
  begin_law = λ d q. refl;
  begun_law = λ d t q h. ap (lookup q) (sym (same_table d t h));
  select_law = λ t p hp h. found_row (lookup (key p) t) hp h;
  select_none_law = λ t p e h _. no_row (lookup (key p) t) e h;
  select_seen_law = λ t p q. refl;
  insert_law = λ t p q hp u h. lookup-insert q (key p) hp t;
  update_law = λ t p q hp old u there h. lookup-insert q (key p) hp t;
  commit_law = λ t d u q h. refl;
  commit_error_law = λ t d. inr (λ q. refl);
  rollback_law = λ t d q. refl;
}

abbrev hps : HpTable
hps = ("ann", pos 20) ∷ []

shown : Shows table laws hps hps
unfolding laws
shown q = refl

mysql_atomic_lem_example :
    ((hp : ℤ) × ((apply_damage_naive table "ANN" (pos 30) hps).0 ≡ ok hp)
      × ((Inmem.apply_damage_naive "ann" (pos 30) hps).0 ≡ ok hp)
      × Shows table laws
          (apply_damage_naive table "ANN" (pos 30) hps).1
          (Inmem.apply_damage_naive "ann" (pos 30) hps).1)
    ⊎ ((e : GoError) × ((apply_damage_naive table "ANN" (pos 30) hps).0 ≡ err e)
        × (Shows table laws (apply_damage_naive table "ANN" (pos 30) hps).1 hps
            ⊎ (IsCommitError table laws (apply_damage_naive table "ANN" (pos 30) hps).1
                × Shows table laws
                    (apply_damage_naive table "ANN" (pos 30) hps).1
                    (Inmem.apply_damage_naive "ann" (pos 30) hps).1)))
unfolding laws string_eq
mysql_atomic_lem_example = mysql_atomic_lem table laws "ANN" (pos 30) hps hps shown
