-- ===== src/Battle/Mysql/Statements.antt =====
-- internal/persistence/mysql/battle_repo.go: what a transaction shows at the end of its statements.
use stage_sync.Base.{
  String, true, false, some, ◌≡◌, refl, ap, sym, ◌∙◌, ◌==◌, string_eq, if◌then◌else◌, ==_refl, ◌⊎◌,
  inl, inr, Bool-cases,
}
use stage_sync.Base.Int.{ℤ}
use stage_sync.Runtime.{
  GoError, Result, ok, err, wrap, Result-cases, is_error, context, bind_ok, bind_err, context_ok,
  context_err, pure, ◌>>◌,
}
use stage_sync.Battle.{start_hp, hit, default_initial_hp}
use stage_sync.Battle.Mysql.{Sql, SqlLaws, read_or_insert, in_tx, written}

module _ {D T : Type 0} (sql : Sql D T) (laws : SqlLaws sql) where
  -- The transaction has the row, with the HP that the hit starts from.
  abbrev IsRead : String → T → Result ℤ × T → Type 0
  IsRead p t r =
      (r.0 ≡ ok (start_hp (laws.seen t (laws.fold p))))
      × (laws.seen r.1 (laws.fold p) ≡ some (start_hp (laws.seen t (laws.fold p))))
      × ((q : String) → (q == laws.fold p) ≡ false → laws.seen r.1 q ≡ laws.seen t q)

  abbrev pub IsFailed : Result ℤ × T → Type 0
  IsFailed r = (e : GoError) × (r.0 ≡ err e)

  with_row :
      (p : String) (t : T) (hp : ℤ)
      → (sql.select_for_update p t).0 ≡ ok hp
      → IsRead p t (read_or_insert sql p t)
  unfolding read_or_insert
  with_row p t hp h =
      let there = laws.select_law t p hp h in
      let start = ap start_hp there in
      rw (read_or_insert, h)
        (
          ap ok (sym start),
          laws.select_seen_law t p (laws.fold p) ∙ there ∙ ap some (sym start),
          λ q _. laws.select_seen_law t p q,
        )

  insert_row :
      (p : String) (t : T) (e : GoError)
      → (sql.select_for_update p t).0 ≡ err e
      → is_error e "sql.ErrNoRows" ≡ true
      → IsRead p t (read_or_insert sql p t) ⊎ IsFailed (read_or_insert sql p t)
  unfolding read_or_insert
  insert_row p t e h no_rows =
      let t1 = (sql.select_for_update p t).1 in
      let start = ap start_hp (laws.select_none_law t p e h no_rows) in
      elim (Result-cases (sql.insert_hp p default_initial_hp t1).0) [
        | inl (u, k) ↦ inl (
            rw (read_or_insert, h, no_rows, k)
              (
                ap ok (sym start),
                laws.insert_law t1 p (laws.fold p) default_initial_hp u k
                    ∙ ap (λ b. if b then some default_initial_hp else laws.seen t1 (laws.fold p))
                        (==_refl (laws.fold p))
                    ∙ ap some (sym start),
                λ q other.
                    laws.insert_law t1 p q default_initial_hp u k
                    ∙ ap (λ b. if b then some default_initial_hp else laws.seen t1 q) other
                    ∙ laws.select_seen_law t p q,
              ))
        | inr (e', k) ↦ inr (wrap "insert hp" e', rw (read_or_insert, h, no_rows, k) refl)
      ]

  row_cases :
      (p : String) (t : T) → IsRead p t (read_or_insert sql p t) ⊎ IsFailed (read_or_insert sql p t)
  unfolding read_or_insert
  row_cases p t = elim (Result-cases (sql.select_for_update p t).0) [
    | inl (hp, h) ↦ inl (with_row p t hp h)
    | inr (e, h) ↦ elim (Bool-cases (is_error e "sql.ErrNoRows")) [
      | inl no_rows ↦ insert_row p t e h no_rows
      | inr other ↦ inr (wrap "select for update" e, rw (read_or_insert, h, other) refl)
    ]
  ]

  -- The transaction shows the row with the HP that is left, and every other row as before.
  abbrev pub IsHit : String → ℤ → T → Result ℤ × T → Type 0
  IsHit p damage t r =
      (r.0 ≡ ok (hit (start_hp (laws.seen t (laws.fold p))) damage))
      × ((q : String)
          → laws.seen r.1 q
            ≡ written (laws.fold p) (hit (start_hp (laws.seen t (laws.fold p))) damage)
                (laws.seen t) q)

  in_tx-eq :
      (p : String) (damage hp : ℤ) (t : T)
      → (read_or_insert sql p t).0 ≡ ok hp
      → in_tx sql p damage t ≡ (
          (context "update hp" (sql.update_hp p (hit hp damage)) >> pure (hit hp damage))
            (read_or_insert sql p t).1)
  unfolding in_tx
  in_tx-eq p damage hp t h =
      bind_ok (read_or_insert sql p)
        (λ hp'. context "update hp" (sql.update_hp p (hit hp' damage)) >> pure (hit hp' damage)) t
        (read_or_insert sql p t).1 hp (ap (λ r. (r, (read_or_insert sql p t).1)) h)

  -- The update and what follows it.
  update_ok :
      (p : String) (left : ℤ) (t : T) (u : Unit {0})
      → (sql.update_hp p left t).0 ≡ ok u
      → (context "update hp" (sql.update_hp p left) >> pure left) t
        ≡ (ok left, (sql.update_hp p left t).1)
  update_ok p left t u k =
      let t' = (sql.update_hp p left t).1 in
      bind_ok (context "update hp" (sql.update_hp p left)) (λ _. pure left) t t' u
        (context_ok "update hp" (sql.update_hp p left) t t' u (ap (λ r. (r, t')) k))

  update_err :
      (p : String) (left : ℤ) (t : T) (e : GoError)
      → (sql.update_hp p left t).0 ≡ err e
      → (context "update hp" (sql.update_hp p left) >> pure left) t
        ≡ (err (wrap "update hp" e), (sql.update_hp p left t).1)
  update_err p left t e k =
      let t' = (sql.update_hp p left t).1 in
      bind_err (context "update hp" (sql.update_hp p left)) (λ _. pure left) t t'
        (wrap "update hp" e)
        (context_err "update hp" (sql.update_hp p left) t t' e (ap (λ r. (r, t')) k))

  in_tx_failed :
      (p : String) (damage : ℤ) (t : T) (e : GoError)
      → (read_or_insert sql p t).0 ≡ err e
      → in_tx sql p damage t ≡ (err e, (read_or_insert sql p t).1)
  unfolding in_tx
  in_tx_failed p damage t e h =
      bind_err (read_or_insert sql p)
        (λ hp. context "update hp" (sql.update_hp p (hit hp damage)) >> pure (hit hp damage)) t
        (read_or_insert sql p t).1 e (ap (λ r. (r, (read_or_insert sql p t).1)) h)

  -- The rows after the update.
  updated :
      (p q : String) (hp left : ℤ) (t t1 : T) (u : Unit {0})
      → laws.seen t1 (laws.fold p) ≡ some hp
      → ((i : String) → (i == laws.fold p) ≡ false → laws.seen t1 i ≡ laws.seen t i)
      → (sql.update_hp p left t1).0 ≡ ok u
      → laws.seen (sql.update_hp p left t1).1 q ≡ written (laws.fold p) left (laws.seen t) q
  updated p q hp left t t1 u there others k =
      laws.update_law t1 p q left hp u there k ∙ (elim (Bool-cases (q == laws.fold p)) [
        | inl same ↦ rw (same) refl
        | inr other ↦ rw (other) (others q other)
      ])

  pub in_tx_cases :
      (p : String) (damage : ℤ) (t : T)
      → IsHit p damage t (in_tx sql p damage t) ⊎ IsFailed (in_tx sql p damage t)
  in_tx_cases p damage t = elim (row_cases p t) [
    | inr (e, failed) ↦ inr (e, ap (λ r. r.0) (in_tx_failed p damage t e failed))
    | inl (read, there, others) ↦
        let hp = start_hp (laws.seen t (laws.fold p)) in
        let t1 = (read_or_insert sql p t).1 in
        let left = hit hp damage in
        elim (Result-cases (sql.update_hp p left t1).0) [
          | inl (u, k) ↦ inl (
            ap (λ r. r.0) (in_tx-eq p damage hp t read ∙ update_ok p left t1 u k),
            λ q.
                ap (λ r. laws.seen r.1 q) (in_tx-eq p damage hp t read ∙ update_ok p left t1 u k)
                ∙ updated p q hp left t t1 u there others k,
          )
          | inr (e, k) ↦ inr (
            wrap "update hp" e,
            ap (λ r. r.0) (in_tx-eq p damage hp t read ∙ update_err p left t1 e k),
          )
        ]
  ]
