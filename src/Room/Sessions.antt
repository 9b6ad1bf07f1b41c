-- ===== src/Room/Sessions.antt =====
-- internal/room/room.go and internal/endpoint/ws.go: who is in the room.
use stage_sync.Base.{
  ℕ, String, true, false, List, [], ◌∷◌, Option, none, some, ◌≡◌, ap, subst, sym, ◌∙◌, ◌==◌,
  string_eq, nat_eq, arith, eq_of_==, ==_refl, ◌⊎◌, inl, inr, Option-cases, Bool-cases, All,
}
use stage_sync.Base.Dict.{
  lookup, insert, erase, lookup-insert_cases, lookup-insert_other, lookup-insert_self, lookup-nil,
  lookup-insert, lookup-erase_cases, lookup-erase_other, keys_differ,
}
use stage_sync.Room.{
  Member, Frame, not_binary, undecodable, unknown_payload, move, Event, accepted, received, ended,
  Server, apply_move, moved, read_frame, leave, remove, step, after,
}

abbrev or_empty : Option String → String
or_empty none = ""
or_empty (some p) = p

owners_differ :
    (own : ℕ → String) (q : String) (k n : ℕ) → q ≡ own k → (q == own n) ≡ false → (k == n) ≡ false
owners_differ own q k n owned other = elim (Bool-cases (k == n)) [
  | inl same ↦
      ground (arith, other, ==_refl q, ap (λ i. q == i) (owned ∙ ap own (eq_of_== k n same)))
  | inr differ ↦ differ
]

module _ {F : Type 0} (own : ℕ → String) where
  -- The moves of a connection name its own player.
  abbrev pub IsOwn : ℕ × Event F → Type 0
  IsOwn (n, accepted) = Unit
  IsOwn (n, received not_binary) = Unit
  IsOwn (n, received undecodable) = Unit
  IsOwn (n, received unknown_payload) = Unit
  IsOwn (n, received (move m)) = m.player_id ≡ own n
  IsOwn (n, ended) = Unit

  -- The `playerID` of an open connection is "" or its own player's; and a member of the room is the
  -- player of an open connection that has moved.
  pub record IsTracked (s : Server F) : Type 0 where
    pub steady : (n : ℕ) (p : String) → lookup n s.sessions ≡ some p → (p ≡ "") ⊎ (p ≡ own n)
    pub present :
        (q : String) (m : Member F)
        → lookup q s.room ≡ some m
        → (n : ℕ) × (lookup n s.sessions ≡ some q) × (q ≡ own n)

  accepted-IsTracked : (n : ℕ) (s : Server F) → IsTracked s → IsTracked (step n accepted s)
  unfolding step
  accepted-IsTracked n s h = elim (Option-cases (lookup n s.sessions)) [
    | inr (p, taken) ↦ rw (step, taken) h
    | inl fresh ↦
        rw (step, fresh)
          (record {
            steady = λ k p found. elim (lookup-insert_cases k n "" p s.sessions found) [
              | inl (same, empty) ↦ inl (sym empty)
              | inr (other, kept) ↦ h.steady k p kept
            ];
            present = λ q m found.
                let (k, opened, owned) = h.present q m found in
                (
                  k,
                  lookup-insert_other k n "" s.sessions (keys_differ k n q s.sessions opened fresh)
                      ∙ opened,
                  owned,
                );
          })
  ]

  -- The player of the connection `n` is in the room, and every other player as before.
  entered :
      (n : ℕ) (m : Member F) (s : Server F)
      → IsTracked s
      → IsTracked
          (record { room = insert (own n) m s.room; sessions = insert n (own n) s.sessions })
  entered n m s h = record {
    steady = λ k p found. elim (lookup-insert_cases k n (own n) p s.sessions found) [
      | inl (same, owned) ↦ inr (sym owned ∙ ap own (sym same))
      | inr (other, kept) ↦ h.steady k p kept
    ];
    present = λ q m' found. elim (lookup-insert_cases q (own n) m m' s.room found) [
      | inl (same, _) ↦ (n, lookup-insert_self n (own n) s.sessions ∙ ap some (sym same), same)
      | inr (other, kept) ↦
          let (k, tracked, owned) = h.present q m' kept in
          (
            k,
            lookup-insert_other k n (own n) s.sessions (owners_differ own q k n owned other)
                ∙ tracked,
            owned,
          )
    ];
  }

  -- Nothing changes where a connection keeps its player.
  ignored :
      (n : ℕ) (p : String) (s : Server F)
      → lookup n s.sessions ≡ some p
      → IsTracked s
      → IsTracked (record { room = s.room; sessions = insert n p s.sessions })
  ignored n p s opened h = record {
    steady = λ k p' found. elim (lookup-insert_cases k n p p' s.sessions found) [
      | inl (same, kept) ↦
          h.steady k p' (ap (λ i. lookup i s.sessions) same ∙ opened ∙ ap some kept)
      | inr (other, kept) ↦ h.steady k p' kept
    ];
    present = λ q m found.
        let (k, tracked, owned) = h.present q m found in
        (k, ground (arith, lookup-insert k n p s.sessions, eq_of_== k n), owned);
  }

  received-IsTracked :
      (n : ℕ) (f : Frame F) (p : String) (s : Server F)
      → lookup n s.sessions ≡ some p
      → IsOwn (n, received f)
      → IsTracked s
      → IsTracked (record {
        room = (read_frame f (p, s.room)).1;
        sessions = insert n (read_frame f (p, s.room)).0 s.sessions;
      })
  unfolding read_frame apply_move
  received-IsTracked n not_binary p s opened _ h = ignored n p s opened h
  received-IsTracked n undecodable p s opened _ h = ignored n p s opened h
  received-IsTracked n unknown_payload p s opened _ h = ignored n p s opened h
  received-IsTracked n (move m) p s opened owned h =
      subst
        (λ i. IsTracked (record {
          room = insert i (moved m (lookup m.player_id s.room)) s.room;
          sessions = insert n i s.sessions;
        }))
        (sym owned) (entered n (moved m (lookup m.player_id s.room)) s h)

  module _ (named : (n : ℕ) → (own n == "") ≡ false) where
    -- The player of a connection that ends leaves the room.
    left_anonymous :
        (n : ℕ) (s : Server F)
        → lookup n s.sessions ≡ some ""
        → IsTracked s
        → IsTracked (record { room = s.room; sessions = erase n s.sessions })
    left_anonymous n s opened h = record {
      steady = λ k p found. h.steady k p (lookup-erase_cases k n p s.sessions found).1;
      present = λ q m found.
          let (k, tracked, owned) = h.present q m found in
          let differ : (k == n) ≡ false =
            owners_differ (λ i. or_empty (lookup i s.sessions)) (own k) k n
              (sym owned ∙ ap or_empty (sym tracked))
              (ap (λ o. own k == or_empty o) opened ∙ named k) in
          (k, lookup-erase_other k n s.sessions differ ∙ tracked, owned);
    }

    left_named :
        (n : ℕ) (s : Server F)
        → IsTracked s
        → IsTracked (record { room = remove (own n) s.room; sessions = erase n s.sessions })
    left_named n s h = record {
      steady = λ k p found. h.steady k p (lookup-erase_cases k n p s.sessions found).1;
      present = λ q m found.
          let (other, kept) = lookup-erase_cases q (own n) m s.room found in
          let (k, tracked, owned) = h.present q m kept in
          (
            k,
            lookup-erase_other k n s.sessions (owners_differ own q k n owned other) ∙ tracked,
            owned,
          );
    }

    ended-IsTracked :
        (n : ℕ) (p : String) (s : Server F)
        → lookup n s.sessions ≡ some p
        → IsTracked s
        → IsTracked (record { room = leave p s.room; sessions = erase n s.sessions })
    unfolding leave
    ended-IsTracked n p s opened h = elim (Bool-cases (p == "")) [
      | inl empty ↦
          rw (leave, empty) (left_anonymous n s (opened ∙ ap some (eq_of_== p "" empty)) h)
      | inr moved_once ↦ elim (h.steady n p opened) [
        | inl empty ↦ ground (arith, moved_once, subst (λ i. (p == i) ≡ true) empty (==_refl p))
        | inr owned ↦
            rw (leave, moved_once)
              (subst
                (λ i. IsTracked (record { room = remove i s.room; sessions = erase n s.sessions }))
                (sym owned) (left_named n s h))
      ]
    ]

    step-IsTracked :
        (n : ℕ) (e : Event F) (s : Server F) → IsOwn (n, e) → IsTracked s → IsTracked (step n e s)
    unfolding step
    step-IsTracked n accepted s _ h = accepted-IsTracked n s h
    step-IsTracked n (received f) s owned h = elim (Option-cases (lookup n s.sessions)) [
      | inl absent ↦ rw (step, absent) h
      | inr (p, opened) ↦ rw (step, opened) (received-IsTracked n f p s opened owned h)
    ]
    step-IsTracked n ended s _ h = elim (Option-cases (lookup n s.sessions)) [
      | inl absent ↦ rw (step, absent) h
      | inr (p, opened) ↦ rw (step, opened) (ended-IsTracked n p s opened h)
    ]

    after-IsTracked :
        (es : List (ℕ × Event F)) (s : Server F)
        → All IsOwn es
        → IsTracked s
        → IsTracked (after es s)
    after-IsTracked [] s _ h = h
    after-IsTracked ((n, e) ∷ es) s owned h =
        after-IsTracked es (step n e s) owned.1 (step-IsTracked n e s owned.0 h)

    -- Whatever happens to the connections of a server that starts with none, in whatever order, where
    -- each connection moves only its own player, whose ID is not empty: a member of the room is the
    -- player of a connection that is still open.
    pub members_are_connected_lem :
        (es : List (ℕ × Event F)) (q : String) (m : Member F)
        → All IsOwn es
        → lookup q (after es (record { room = []; sessions = [] })).room ≡ some m
        → (n : ℕ) × (lookup n (after es (record { room = []; sessions = [] })).sessions ≡ some q)
          × (q ≡ own n)
    members_are_connected_lem es q m owned found =
        (after-IsTracked es (record { room = []; sessions = [] }) owned
            (record {
              steady = λ n p found. ground (arith, lookup-nil {V = String} n);
              present = λ q m found. ground (arith, lookup-nil {V = Member F} q);
            })).present
          q m found
