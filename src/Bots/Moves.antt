-- ===== src/Bots/Moves.antt =====
-- cmd/bots/main.go: what the bots do to the room of the server.
use stage_sync.Base.{
  ℕ, suc, String, ◌<>◌, false, List, [], ◌∷◌, ◌++◌, some, ◌≡◌, refl, sym, subst, ◌==◌, string_eq,
  nat_eq, if◌then◌else◌, All, All-append,
}
use stage_sync.Base.Dict.{lookup}
use stage_sync.Base.Header.{prefix_nonempty}
use stage_sync.Runtime.{Result, ok, err, wrap}
use stage_sync.Room.{Move, Member, Frame, move, Event, accepted, received, ended, after}
use stage_sync.Room.Sessions.{IsOwn, members_are_connected_lem}
use stage_sync.Bots.{
  Net, Found, ticked, cancelled, Bot, new_bot, running, stopped, Scenario, player_id, stop, dialled,
  sent, send_move, round, run_bots,
}

-- What the server gets from the network: each call of the connection `i` adds events of that
-- connection and of its own kind, any number of them; and a message decodes to what it was made from.
pub record NetLaws {W F B : Type 0} (net : Net W F B) : Type 0 where
  pub events : W → List (ℕ × Event F)
  pub decode : B → Frame F
  pub dial :
      (i : ℕ) (addr : String) (w : W)
      → (new : List (ℕ × Event F)) × (events (net.dial i addr w).1 ≡ events w ++ new)
        × All (λ e. e ≡ (i, accepted)) new
  pub write :
      (i : ℕ) (b : B) (w : W)
      → (new : List (ℕ × Event F)) × (events (net.write i b w).1 ≡ events w ++ new)
        × All (λ e. e ≡ (i, received (decode b))) new
  pub close :
      (i : ℕ) (w : W)
      → (new : List (ℕ × Event F)) × (events (net.close i w) ≡ events w ++ new)
        × All (λ e. e ≡ (i, ended)) new
  pub close_now :
      (i : ℕ) (w : W)
      → (new : List (ℕ × Event F)) × (events (net.close_now i w) ≡ events w ++ new)
        × All (λ e. e ≡ (i, ended)) new
  pub marshal : (m : Move F) (b : B) → net.marshal m ≡ ok b → decode b ≡ move m

abbrev prefix : String
prefix = "p"

module _ {W F B G : Type 0} (net : Net W F B) (laws : NetLaws net) (itoa : ℕ → String)
    (addr : String) (scen : Scenario F G) where
  abbrev own : ℕ → String
  own i = "p" <> itoa i

  -- All that the server got moves only the bot of its connection.
  abbrev IsFair : W → Type 0
  IsFair w = All (IsOwn own) (laws.events w)

  all_own :
      (e : ℕ × Event F) (new : List (ℕ × Event F))
      → IsOwn own e
      → All (λ x. x ≡ e) new
      → All (IsOwn own) new
  all_own e [] h a = tt
  all_own e (x ∷ new) h a = (subst (IsOwn own) (sym a.0) h, all_own e new h a.1)

  -- A call that adds events of one kind.
  adds-IsFair :
      (w w' : W) (e : ℕ × Event F)
      → IsOwn own e
      → ((new : List (ℕ × Event F)) × (laws.events w' ≡ laws.events w ++ new)
          × All (λ x. x ≡ e) new)
      → IsFair w
      → IsFair w'
  adds-IsFair w w' e h (new, same, all) fair =
      subst (All (IsOwn own)) (sym same)
        (All-append (IsOwn own) (laws.events w) new fair (all_own e new h all))

  dialled-IsFair :
      (i : ℕ) (g : G) (q : Result (Unit {0}) × W)
      → IsFair q.1
      → IsFair (dialled net itoa addr scen i g q).1
  dialled-IsFair i g (ok u, w) h = h
  dialled-IsFair i g (err e, w) h = h

  stop-IsFair :
      (i : ℕ) (r : Result (Unit {0})) (w : W) → IsFair w → IsFair (stop net itoa addr scen i r w).1
  stop-IsFair i r w h = adds-IsFair w (net.close_now i w) (i, ended) tt (laws.close_now i w) h

  sent-IsFair :
      (i : ℕ) (g : G) (n : ℕ) (q : Result (Unit {0}) × W)
      → IsFair q.1
      → IsFair (sent net itoa addr scen i g n q).1
  sent-IsFair i g n (ok u, w) h = h
  sent-IsFair i g n (err e, w) h = stop-IsFair i (err (wrap "write" e)) w h

  send_move-IsFair :
      (i : ℕ) (g : G) (n : ℕ) (m : Move F) (r : Result B) (w : W)
      → net.marshal m ≡ r
      → m.player_id ≡ own i
      → IsFair w
      → IsFair (send_move net itoa addr scen i g n r w).1
  send_move-IsFair i g n m (err e) w made mine h = stop-IsFair i (err (wrap "marshal" e)) w h
  send_move-IsFair i g n m (ok b) w made mine h = sent-IsFair i g n (net.write i b w) (
      adds-IsFair w (net.write i b w).1 (i, received (laws.decode b))
        (subst (λ f. IsOwn own (i, received f)) (sym (laws.marshal m b made)) mine)
        (laws.write i b w) h)

  round-IsFair :
      (i : ℕ) (found : Found) (bot : Bot G) (w : W)
      → IsFair w
      → IsFair (round net itoa addr scen i found bot w).1
  unfolding round
  round-IsFair i found (new_bot g) w h =
      dialled-IsFair i g (net.dial i addr w)
        (adds-IsFair w (net.dial i addr w).1 (i, accepted) tt (laws.dial i addr w) h)
  round-IsFair i cancelled (running g n) w h =
      stop-IsFair i (ok tt) (net.close i w)
        (adds-IsFair w (net.close i w) (i, ended) tt (laws.close i w) h)
  round-IsFair i ticked (running g n) w h =
      let ((x, y), g') = scen g (suc n) in
      let m : Move F = record { player_id = own i; x = x; y = y } in
      send_move-IsFair i g' (suc n) m (net.marshal m) w refl refl h
  round-IsFair i found (stopped r) w h = h

  run_bots-IsFair :
      (rounds : List (ℕ × Found)) (bots : ℕ → Bot G) (w : W)
      → IsFair w
      → IsFair (run_bots net itoa addr scen rounds bots w).1
  unfolding run_bots
  run_bots-IsFair [] bots w h = h
  run_bots-IsFair ((i, found) ∷ rounds) bots w h =
      let (bot, w') = round net itoa addr scen i found (bots i) w in
      run_bots-IsFair rounds (λ j. if j == i then bot else bots j) w'
        (round-IsFair i found (bots i) w h)

  named : (i : ℕ) → (own i == "") ≡ false
  named i = prefix_nonempty prefix (itoa i) refl

  -- Whatever the rounds of the bots, in whatever order, and whichever calls of the network fail: where
  -- the server starts with no connection and gets nothing but what the bots send, a member of its
  -- room is the bot of a connection that is still open.
  pub bots_in_room_lem :
      (rounds : List (ℕ × Found)) (bots : ℕ → Bot G) (w : W) (q : String) (m : Member F)
      → laws.events w ≡ []
      → let heard = laws.events (run_bots net itoa addr scen rounds bots w).1 in
        lookup q (after heard (record { room = []; sessions = [] })).room ≡ some m
        → (i : ℕ) × (lookup i (after heard (record { room = []; sessions = [] })).sessions ≡ some q)
          × (q ≡ player_id net itoa addr scen i)
  bots_in_room_lem rounds bots w q m quiet found =
      let fair = run_bots-IsFair rounds bots w (subst (All (IsOwn own)) (sym quiet) tt) in
      members_are_connected_lem own named
        (laws.events (run_bots net itoa addr scen rounds bots w).1) q m fair found
