-- ===== src/Engine/Market/Moves.antt =====
-- market.py: what an agent observes, the end of a round, and the price moves that it tells of.
use sim_swarm.Prelude.{
  ℕ, ◌+◌, ◌≡◌, ◌≢◌, refl, ap, ◌∙◌, Bool, false, List, [], ◌∷◌, ◌++◌, some, get_or, if◌then◌else◌,
  All, arith, Bool-cases, inl, inr, map, select,
}
use sim_swarm.Prelude.Text.{Text, codes, text_eq_iff}
use sim_swarm.Prelude.Dict.{
  Dict, text_Eq, lookup, insert, keys, member, Distinct, lookup-insert_self, lookup-insert_ne,
}
use sim_swarm.Engine.Types.{Agent, Event}
use sim_swarm.Engine.Number.{Number}
use sim_swarm.Engine.Bridge.{join_lines}
use sim_swarm.Engine.Market.{Market, MarketEnvironment, PriceMove}
use sim_swarm.Engine.Market.Actions.{price_yes, price_no, register_agent, newcomer, no_shares}

-- How Python prints and rounds: `f"{x:.0f}"`, `str(x)` and `math.floor(x)`.
pub record Shown (N : Type 0) : Type 0 where
  pub whole : N → Text
  pub str : N → Text
  pub floor : N → N

module _ {N : Type 0} (num : Number N) (shown : Shown N) where
  abbrev pub floor_shares : N → N
  floor_shares value = num.over (shown.floor (num.times value (num.of_int 100))) (num.of_int 100)

  abbrev percent : N → Text
  percent price = shown.whole (num.times price (num.of_int 100)) ++ codes "%"

  -- `get_observations`: the text, and the environment in which the agent is registered.
  unfoldable pub get_observations : Agent → MarketEnvironment N → Text × MarketEnvironment N
  get_observations agent e =
      let registered = register_agent num agent e in
      let portfolio = get_or (lookup agent.id registered.portfolios) (newcomer e) in
      let line = λ (entry : Text × Market N).
        let m = entry.1 in
        let holding = get_or (lookup m.id portfolio.shares) (no_shares num) in
        codes "Market ["
        ++ m.id
        ++ codes "]: "
        ++ m.question
        ++ codes " | YES: "
        ++ percent (price_yes num m)
        ++ codes " | NO: "
        ++ percent (price_no num m)
        ++ 10 ∷ codes "  Your position in ["
        ++ m.id
        ++ codes "]: YES="
        ++ shown.str (floor_shares holding.yes)
        ++ codes " NO="
        ++ shown.str (floor_shares holding.no) in
      (join_lines (map line e.markets), registered)

module _ {N : Type 0} (num : Number N) where
  abbrev pub price_move : ℕ → Text → N → N → Event (PriceMove N)
  price_move round slug previous current = record {
    source = codes "market";
    type = codes "price_move";
    payload = record { market_id = slug; previous = previous; current = current };
    round = round;
  }

  -- The test of `tick`.
  abbrev pub is_move : N → N → N → Bool
  is_move threshold previous current = num.le threshold (num.absolute (num.minus current previous))

  -- The loop of `tick`: the events, and the prices noted.
  unfoldable pub tick_markets :
      ℕ → N → Dict Text (Market N) → Dict Text N → List (Event (PriceMove N)) × Dict Text N
  tick_markets round threshold [] last = ([], last)
  tick_markets round threshold ((slug, market) ∷ markets) last =
      let current = price_yes num market in
      let previous = get_or (lookup slug last) current in
      let (rest, last2) = tick_markets round threshold markets (insert slug current last) in
      (
        if is_move threshold previous current
            then price_move round slug previous current ∷ rest
            else rest,
        last2,
      )

  unfoldable pub tick : MarketEnvironment N → MarketEnvironment N
  tick e =
      let (events, last) =
        tick_markets e.round e.config.price_move_event_threshold e.markets e.last_price in
      record e { events = e.events ++ events; last_price = last; round = e.round + 1 }

  unfoldable pub publish_events :
      MarketEnvironment N → List (Event (PriceMove N)) × MarketEnvironment N
  publish_events e = (e.events, record e { events = [] })

  -- The markets whose price has moved by the threshold since it was noted, and the event of one.
  abbrev pub moved : N → Dict Text N → Text × Market N → Bool
  moved threshold last m =
      is_move threshold (get_or (lookup m.0 last) (price_yes num m.1)) (price_yes num m.1)

  abbrev pub move_of : ℕ → Dict Text N → Text × Market N → Event (PriceMove N)
  move_of round last m =
      price_move round m.0 (get_or (lookup m.0 last) (price_yes num m.1)) (price_yes num m.1)

  abbrev Noted : Dict Text N → Text × Market N → Type 0
  Noted last m = lookup m.0 last ≡ some (price_yes num m.1)

  -- A price that is noted under another id changes nothing for the markets that are left.
  moves_ne :
      (round : ℕ) (threshold : N) (slug : Text) (price : N) (markets : Dict Text (Market N))
      (last : Dict Text N)
      → member slug (keys markets) ≡ false
      → map
          (move_of round (insert slug price last))
          (select (moved threshold (insert slug price last)) markets)
        ≡ map (move_of round last) (select (moved threshold last) markets)
  unfolding member
  moves_ne round threshold slug price [] last n = refl
  moves_ne round threshold slug price ((j, m) ∷ markets) last n =
      let ne : j ≢ slug = λ q. ground (arith, q, n, text_eq_iff slug j) in
      let rest = moves_ne round threshold slug price markets last (ground (arith, n)) in
      let same = lookup-insert_ne j slug price last ne in
      elim (Bool-cases (moved threshold last (j, m))) [
        | inl y ↦ rw (same, y) (rw (same, rest) refl)
        | inr k ↦ rw (same, k) rest
      ]

  tick_markets-events :
      (round : ℕ) (threshold : N) (markets : Dict Text (Market N)) (last : Dict Text N)
      → Distinct (keys markets)
      → (tick_markets round threshold markets last).0
        ≡ map (move_of round last) (select (moved threshold last) markets)
  unfolding tick_markets
  tick_markets-events round threshold [] last d = refl
  tick_markets-events round threshold ((slug, m) ∷ markets) last d =
      let current = price_yes num m in
      let rest =
        tick_markets-events round threshold markets (insert slug current last) d.1
        ∙ moves_ne round threshold slug current markets last d.0 in
      elim (Bool-cases (moved threshold last (slug, m))) [
        | inl y ↦ rw (y, rest) refl
        | inr n ↦ rw (n, rest) refl
      ]

  tick_markets-keeps :
      (round : ℕ) (threshold : N) (markets : Dict Text (Market N)) (last : Dict Text N) (id : Text)
      → member id (keys markets) ≡ false
      → lookup id (tick_markets round threshold markets last).1 ≡ lookup id last
  unfolding tick_markets member
  tick_markets-keeps round threshold [] last id n = refl
  tick_markets-keeps round threshold ((slug, m) ∷ markets) last id n =
      let ne : id ≢ slug = λ q. ground (arith, q, n, text_eq_iff id slug) in
      tick_markets-keeps round threshold markets (insert slug (price_yes num m) last) id
        (ground (arith, n))
      ∙ lookup-insert_ne id slug (price_yes num m) last ne

  tick_markets-Noted :
      (round : ℕ) (threshold : N) (markets : Dict Text (Market N)) (last : Dict Text N)
      → Distinct (keys markets)
      → All (Noted (tick_markets round threshold markets last).1) markets
  unfolding tick_markets
  tick_markets-Noted round threshold [] last d = tt
  tick_markets-Noted round threshold ((slug, m) ∷ markets) last d =
      let last2 = insert slug (price_yes num m) last in
      (
        tick_markets-keeps round threshold markets last2 slug d.0
            ∙ lookup-insert_self slug (price_yes num m) last,
        tick_markets-Noted round threshold markets last2 d.1,
      )

-- Where the markets have distinct ids, the end of a round tells of exactly the markets whose price
-- differs by the threshold or more from the price noted for them, with both prices, in the order of the
-- markets, and then the price of every market is noted; publishing hands over the events that were
-- pending before and these, and a second time none.
pub tick-tells_moves :
    {N : Type 0} (num : Number N) (e : MarketEnvironment N)
    → Distinct (keys e.markets)
    → let told =
        map
          (move_of num e.round e.last_price)
          (select (moved num e.config.price_move_event_threshold e.last_price) e.markets) in
      let published = publish_events num (tick num e) in
      (published.0 ≡ e.events ++ told)
      × ((publish_events num published.1).0 ≡ [])
      × All (λ m. lookup m.0 published.1.last_price ≡ some (price_yes num m.1)) e.markets
unfolding tick publish_events
tick-tells_moves num e d =
    let threshold = e.config.price_move_event_threshold in
    (
      ap (λ t. e.events ++ t) (tick_markets-events num e.round threshold e.markets e.last_price d),
      refl,
      tick_markets-Noted num e.round threshold e.markets e.last_price d,
    )
