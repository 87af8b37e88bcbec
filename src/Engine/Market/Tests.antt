-- ===== src/Engine/Market/Tests.antt =====
-- simswarm/environments/market.py at concrete inputs.
use sim_swarm.Prelude.{◌≡◌, refl, false, List, [], ◌∷◌, ◌++◌, none, some, All, map, select, arith}
use sim_swarm.Prelude.Int.{ℤ, pos}
use sim_swarm.Prelude.Text.{Text, codes, text_eq}
use sim_swarm.Prelude.Dict.{text_Eq, lookup, insert, member}
use sim_swarm.Engine.Types.{Agent}
use sim_swarm.Engine.Decimal.{thousandths, thousandths-IsOrdered}
use sim_swarm.Engine.Market.{MarketConfig, MarketEnvironment, MarketArgs}
use sim_swarm.Engine.Market.Slug.{
  question_to_slug, collapse, strip_left, candidate, digits, next_free, unique_slug,
}
use sim_swarm.Engine.Market.Names.{unique_slug-finds, IsFresh}
use sim_swarm.Engine.Market.Setup.{init, create_markets, reserves_from_price, IsSetUp, init-sets_up}
use sim_swarm.Engine.Market.Actions.{
  execute_action, register_agent, price_yes, buy, dispatch, buy_shares, complete_buy,
  normalize_outcome, sell_shares,
}
use sim_swarm.Engine.Market.Ledger.{portfolio_of, trades_of, book}
use sim_swarm.Engine.Market.History.{
  Order, execute_all, own_trades, all_trades, execute_all-balances,
}
use sim_swarm.Engine.Market.Guards.{IsCovered, execute_action-IsCovered, execute_action-refuses}
use sim_swarm.Engine.Market.Moves.{tick, publish_events, move_of, moved, tick-tells_moves}

abbrev question : Text
question = codes "Will oil rise?"

-- The id of a question, and of the same question asked again.
slug : question_to_slug question ≡ codes "will_oil_rise"
unfolding question_to_slug collapse strip_left
slug = refl

second_slug : unique_slug question (codes "will_oil_rise" ∷ []) ≡ some (codes "will_oil_rise_2")
unfolding unique_slug question_to_slug collapse strip_left next_free candidate digits member text_eq
second_slug = refl

unique_slug-finds_example :
    (id : Text) × (unique_slug question (codes "will_oil_rise" ∷ []) ≡ some id)
    × IsFresh id (codes "will_oil_rise" ∷ [])
unique_slug-finds_example = unique_slug-finds question (codes "will_oil_rise" ∷ []) (omega arith)

abbrev config : MarketConfig ℤ
config = record {
  markets =
      record { question = question; initial_price_yes = none }
      ∷ record { question = question; initial_price_yes = some (pos 400) }
      ∷ [];
  initial_balance = pos 1000000;
  initial_liquidity = pos 500000;
  price_move_event_threshold = pos 100;
}

init-sets_up_example :
    (e : MarketEnvironment ℤ) × (init thousandths config ≡ some e) × IsSetUp thousandths 2 e
unfolding reserves_from_price
init-sets_up_example = init-sets_up thousandths config (omega arith) (refl, (refl, tt))

-- Without liquidity the first price is a division by zero.
empty_pool : init thousandths (record config { initial_liquidity = pos 0 }) ≡ none
unfolding init create_markets reserves_from_price unique_slug question_to_slug collapse strip_left
    member
empty_pool = refl

abbrev oil : Text
oil = codes "oil"

abbrev environment : MarketEnvironment ℤ
environment = record {
  config = config;
  markets =
      (
        oil,
        record { id = oil; question = question; reserve_yes = pos 500000; reserve_no = pos 500000 },
      )
      ∷ [];
  portfolios = [];
  trades = [];
  events = [];
  comments = [];
  last_price = (oil, pos 300) ∷ [];
  round = 1;
}

abbrev ann : Agent
ann = record { id = codes "a"; name = codes "Ann" }

abbrev bob : Agent
bob = record { id = codes "b"; name = codes "Bob" }

abbrev for_500 : MarketArgs ℤ
for_500 = record {
  market_id = some oil;
  outcome = some (codes "YES");
  amount = some (pos 500000);
  shares = some (pos 100000);
  text = none;
}

-- Ann pays 500 and the price of YES goes from 50% to 80%.
bought :
    let e = (execute_action thousandths ann (codes "buy_shares") for_500 environment).1 in
    (portfolio_of (codes "a") e).balance ≡ pos 500000
unfolding execute_action register_agent dispatch buy_shares complete_buy normalize_outcome buy
    lookup insert text_eq
bought = refl

abbrev orders : List (Order ℤ)
orders =
    record { agent = ann; action_type = codes "buy_shares"; args = for_500 }
    ∷ record { agent = bob; action_type = codes "sell_shares"; args = for_500 }
    ∷ record { agent = ann; action_type = codes "sell_shares"; args = for_500 }
    ∷ []

execute_all-balances_example :
    let (replies, e2) = execute_all thousandths orders environment in
    ((id : Text)
      → portfolio_of id e2 ≡ book thousandths (own_trades id replies) (portfolio_of id environment))
    × (e2.trades ≡ [] ++ all_trades replies)
execute_all-balances_example = execute_all-balances thousandths orders environment

execute_action-IsCovered_example :
    let x = execute_action thousandths ann (codes "buy_shares") for_500 environment in
    All
      (IsCovered thousandths (portfolio_of (codes "a") environment) (portfolio_of (codes "a") x.1))
      (trades_of x.0.payload)
execute_action-IsCovered_example =
    execute_action-IsCovered thousandths ann (codes "buy_shares") for_500 environment
      thousandths-IsOrdered

abbrev nothing_named : MarketArgs ℤ
nothing_named = record {
  market_id = none;
  outcome = none;
  amount = none;
  shares = none;
  text = none;
}

refused :
    (execute_action thousandths bob (codes "sell_shares") nothing_named environment).0.success
    ≡ false
unfolding execute_action register_agent dispatch sell_shares normalize_outcome lookup insert text_eq
refused = refl

execute_action-refuses_example :
    let x = execute_action thousandths bob (codes "sell_shares") nothing_named environment in
    (x.1 ≡ register_agent thousandths bob environment) × (trades_of x.0.payload ≡ [])
execute_action-refuses_example =
    execute_action-refuses thousandths bob (codes "sell_shares") nothing_named environment refused

tick-tells_moves_example :
    let told =
      map
        (move_of thousandths 1 ((oil, pos 300) ∷ []))
        (select (moved thousandths (pos 100) ((oil, pos 300) ∷ [])) environment.markets) in
    let published = publish_events thousandths (tick thousandths environment) in
    (published.0 ≡ [] ++ told)
    × ((publish_events thousandths published.1).0 ≡ [])
    × All
        (λ m. lookup m.0 published.1.last_price ≡ some (price_yes thousandths m.1))
        environment.markets
unfolding member
tick-tells_moves_example = tick-tells_moves thousandths environment (refl, tt)
