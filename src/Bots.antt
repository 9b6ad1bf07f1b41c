-- ===== src/Bots.antt =====
-- cmd/bots/main.go: bots that move players of the room. The goroutines of the bots share nothing but
-- the network; a round of a bot is one pass of its `select`, and the rounds of all bots come in any
-- order. The generators, floating-point numbers, the WebSocket library and `proto.Marshal` are
-- parameters.
use stage_sync.Base.{
  ℕ, zero, suc, ◌+◌, ◌<◌, String, ◌<>◌, Bool, List, [], ◌∷◌, Option, none, some, ◌==◌, string_eq,
  nat_eq, if◌then◌else◌,
}
use stage_sync.Base.Int.{ℤ, pos, negsuc}
use stage_sync.Runtime.{GoError, other, wrap, Result, ok, err, Action}
use stage_sync.Room.{Move}
pub mod Moves
mod Tests

-- `float64`, and the generator `rand.Rand`, whose `IntN(n)` is less than `n`.
pub record Numbers (F G : Type 0) : Type 0 where
  pub of_int : ℤ → F
  pub add : F → F → F
  pub sub : F → F → F
  pub mul : F → F → F
  pub round : F → F
  pub float64 : G → F × G
  pub int_n : ℕ → G → ℕ × G

-- `scenario`: where a bot goes next. The tick is not used by any of the three.
abbrev pub Scenario : Type 0 → Type 0 → Type 0
Scenario F G = G → ℕ → (F × F) × G

module _ {F G : Type 0} (num : Numbers F G) where
  -- `rng.Float64()*width - half`
  abbrev pub spread : ℤ → ℤ → G → F × G
  spread width half g =
      let (f, g') = num.float64 g in (num.sub (num.mul f (num.of_int width)) (num.of_int half), g')

  unfoldable pub even_scenario : Scenario F G
  even_scenario g tick =
      let (x, g1) = spread (pos 1000) (pos 500) g in
      let (y, g2) = spread (pos 1000) (pos 500) g1 in ((x, y), g2)

  unfoldable pub herd_scenario : Scenario F G
  herd_scenario g tick =
      let (x, g1) = spread (pos 40) (pos 20) g in
      let (y, g2) = spread (pos 40) (pos 20) g1 in ((x, y), g2)

  -- `centers`; the index is less than 5.
  abbrev center : ℕ → ℤ × ℤ
  center zero = (negsuc 299, negsuc 299)
  center (suc zero) = (pos 300, negsuc 299)
  center (suc (suc zero)) = (pos 0, pos 0)
  center (suc (suc (suc zero))) = (negsuc 299, pos 300)
  center (suc (suc (suc (suc _)))) = (pos 300, pos 300)

  unfoldable pub cluster_scenario : Scenario F G
  cluster_scenario g tick =
      let (i, g1) = num.int_n 5 g in
      let (x, g2) = spread (pos 60) (pos 30) g1 in
      let (y, g3) = spread (pos 60) (pos 30) g2 in
      let (cx, cy) = center i in
      ((num.add (num.of_int cx) (num.round x), num.add (num.of_int cy) (num.round y)), g3)

  -- `parseScenario`; `quoted` is `%q`.
  unfoldable pub parse_scenario : (String → String) → String → Result (Scenario F G)
  parse_scenario quoted s =
      if s == "even"
      then ok even_scenario
      else if s == "herd"
      then ok herd_scenario
      else if s == "cluster"
      then ok cluster_scenario
      else err (other ("unknown scenario " <> (quoted s <> " (want even|herd|cluster)")))

-- The WebSocket client: the connection of the bot `i` goes by its number. `marshal` is
-- `proto.Marshal` of a message with a move.
pub record Net (W F B : Type 0) : Type 0 where
  pub dial : ℕ → String → Action W (Unit {0})
  pub write : ℕ → B → Action W (Unit {0})
  pub close : ℕ → W → W
  pub close_now : ℕ → W → W
  pub marshal : Move F → Result B

-- What the `select` of a bot finds.
pub data Found : Type 0 where
  ticked : Found
  cancelled : Found

-- Where a bot stands: before `Dial`, in its loop with its generator and `step`, or back with a result.
pub data Bot (G : Type 0) : Type 0 where
  new_bot : G → Bot G
  running : G → ℕ → Bot G
  stopped : Result (Unit {0}) → Bot G

module _ {W F B G : Type 0} (net : Net W F B) (itoa : ℕ → String) (addr : String)
    (scen : Scenario F G) where
  -- `"p" + strconv.Itoa(i)`
  abbrev pub player_id : ℕ → String
  player_id i = "p" <> itoa i

  -- The way out of `runBot`, with the deferred `CloseNow`.
  abbrev pub stop : ℕ → Result (Unit {0}) → W → Bot G × W
  stop i r w = (stopped r, net.close_now i w)

  -- `Dial`; without a connection nothing is deferred.
  abbrev pub dialled : ℕ → G → Result (Unit {0}) × W → Bot G × W
  dialled i g (ok u, w) = (running g 0, w)
  dialled i g (err e, w) = (stopped (err (wrap ("dial " <> addr) e)), w)

  -- `conn.Write`
  abbrev pub sent : ℕ → G → ℕ → Result (Unit {0}) × W → Bot G × W
  sent i g step (ok u, w) = (running g step, w)
  sent i g step (err e, w) = stop i (err (wrap "write" e)) w

  -- What follows a tick: the next place, as a frame.
  abbrev pub send_move : ℕ → G → ℕ → Result B → W → Bot G × W
  send_move i g step (err e) w = stop i (err (wrap "marshal" e)) w
  send_move i g step (ok data_) w = sent i g step (net.write i data_ w)

  -- One round of the bot `i`; its first is `Dial`.
  unfoldable pub round : ℕ → Found → Bot G → W → Bot G × W
  round i found (new_bot g) w = dialled i g (net.dial i addr w)
  round i cancelled (running g step) w = stop i (ok tt) (net.close i w)
  round i ticked (running g step) w =
      let ((x, y), g') = scen g (suc step) in
      send_move i g' (suc step) (net.marshal (record { player_id = player_id i; x = x; y = y })) w
  round i found (stopped r) w = (stopped r, w)

  -- All bots, each with its number, for as many rounds as they have made.
  unfoldable pub run_bots : List (ℕ × Found) → (ℕ → Bot G) → W → (ℕ → Bot G) × W
  run_bots [] bots w = (bots, w)
  run_bots ((i, found) ∷ rest) bots w =
      let (bot, w') = round i found (bots i) w in
      run_bots rest (λ j. if j == i then bot else bots j) w'
