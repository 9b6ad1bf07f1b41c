-- ===== src/Bots/Tests.antt =====
-- cmd/bots/main.go: two bots over a network that loses nothing.
use stage_sync.Base.{
  ℕ, zero, suc, ◌+◌, ◌-◌, ◌*◌, String, List, [], ◌∷◌, ◌++◌, some, ◌≡◌, refl, sym, ap, string_eq,
  nat_eq,
}
use stage_sync.Base.Dict.{lookup, insert, erase}
use stage_sync.Base.Int.{pos_part}
use stage_sync.Runtime.{ok, err}
use stage_sync.Room.{
  Move, move, Event, accepted, received, ended, apply_move, read_frame, step, after,
}
use stage_sync.Bots.{
  Numbers, Net, Found, ticked, cancelled, Bot, new_bot, even_scenario, player_id, round, run_bots,
}
use stage_sync.Bots.Moves.{NetLaws, bots_in_room_lem}

abbrev Wire : Type 0
Wire = List (ℕ × Event ℕ)

-- The generator counts up.
abbrev num : Numbers ℕ ℕ
num = record {
  of_int = pos_part;
  add = λ a b. a + b;
  sub = λ a b. a - b;
  mul = λ a b. a * b;
  round = λ a. a;
  float64 = λ g. (g, g + 1);
  int_n = λ n g. (0, g);
}

abbrev net : Net Wire ℕ (Move ℕ)
net = record {
  dial = λ i addr w. (ok tt, w ++ (i, accepted) ∷ []);
  write = λ i m w. (ok tt, w ++ (i, received (move m)) ∷ []);
  close = λ i w. w ++ (i, ended) ∷ [];
  close_now = λ i w. w ++ (i, ended) ∷ [];
  marshal = λ m. ok m;
}

-- What a message decodes to is what went in.
move_of : (m b : Move ℕ) → ok m ≡ ok b → move b ≡ move m
move_of m b h = ap (λ r. elim r [ ok x ↦ move x | err e ↦ move m ]) (sym h)

abbrev laws : NetLaws net
laws = record {
  events = λ w. w;
  decode = move;
  dial = λ i addr w. ((i, accepted) ∷ [], refl, (refl, tt));
  write = λ i m w. ((i, received (move m)) ∷ [], refl, (refl, tt));
  close = λ i w. ((i, ended) ∷ [], refl, (refl, tt));
  close_now = λ i w. ((i, ended) ∷ [], refl, (refl, tt));
  marshal = move_of;
}

abbrev itoa : ℕ → String
itoa zero = "0"
itoa (suc n) = "1"

abbrev rounds : List (ℕ × Found)
rounds = (0, ticked) ∷ (1, ticked) ∷ (0, ticked) ∷ (1, cancelled) ∷ []

abbrev bots : ℕ → Bot ℕ
bots i = new_bot 1

abbrev wire : Wire
wire = (run_bots net itoa "ws://room" (even_scenario num) rounds bots []).1

bots_in_room_lem_example :
    (i : ℕ) × (lookup i (after wire (record { room = []; sessions = [] })).sessions ≡ some "p0")
    × ("p0" ≡ player_id net itoa "ws://room" (even_scenario num) i)
unfolding lookup insert erase step read_frame apply_move string_eq nat_eq run_bots round
    even_scenario
bots_in_room_lem_example =
    bots_in_room_lem net laws itoa "ws://room" (even_scenario num) rounds bots [] "p0"
      (record { player_id = "p0"; x = 500; y = 1500 }) refl refl
