-- ===== src/Engine/Market/Actions.antt =====
-- market.py and market_amm.py: the prices, the trades and the handlers.
use sim_swarm.Prelude.{
  Bool, true, false, [], ◌∷◌, ◌++◌, Option, none, some, if◌then◌else◌, is_some, get_or, map,
}
use sim_swarm.Prelude.Text.{Text, codes, text_eq, lower}
use sim_swarm.Prelude.Dict.{text_Eq, lookup, insert}
use sim_swarm.Engine.Types.{Agent}
use sim_swarm.Engine.Number.{Number}
use sim_swarm.Engine.Market.{
  Market, MarketEnvironment, Holding, Portfolio, Outcome, yes, no, Trade, MarketArgs, Listing,
  insufficient_shares, traded, commented, listed, nothing, Step, success, failure,
}

-- `_normalize_outcome`, where `str` of a missing outcome is "None".
unfoldable pub normalize_outcome : Option Text → Option Outcome
normalize_outcome raw =
    let outcome = lower (get_or raw (codes "None")) in
    if text_eq outcome (codes "yes")
    then some yes
    else if text_eq outcome (codes "no")
    then some no
    else none

abbrev pub held_in : {N : Type 0} → Outcome → Holding N → N
held_in yes h = h.yes
held_in no h = h.no

abbrev pub set_held : {N : Type 0} → Outcome → N → Holding N → Holding N
set_held yes shares h = record h { yes = shares }
set_held no shares h = record h { no = shares }

-- The portfolio of an agent that is registered.
abbrev pub newcomer : {N : Type 0} → MarketEnvironment N → Portfolio N
newcomer e = record { balance = e.config.initial_balance; shares = [] }

module _ {N : Type 0} (num : Number N) where
  abbrev pub price_yes : Market N → N
  price_yes m = num.over m.reserve_no (num.plus m.reserve_yes m.reserve_no)

  abbrev pub price_no : Market N → N
  price_no m = num.over m.reserve_yes (num.plus m.reserve_yes m.reserve_no)

  -- `buy_yes` and `buy_no`: the shares acquired, and the market after it.
  unfoldable pub buy : Outcome → N → Market N → N × Market N
  buy yes amount m =
      let new_no = num.plus m.reserve_no amount in
      let new_yes = num.over (num.times m.reserve_yes m.reserve_no) new_no in
      (num.minus m.reserve_yes new_yes, record m { reserve_yes = new_yes; reserve_no = new_no })
  buy no amount m =
      let new_yes = num.plus m.reserve_yes amount in
      let new_no = num.over (num.times m.reserve_yes m.reserve_no) new_yes in
      (num.minus m.reserve_no new_no, record m { reserve_yes = new_yes; reserve_no = new_no })

  -- `sell_yes` and `sell_no`: the proceeds, and the market after it.
  unfoldable pub sell : Outcome → N → Market N → N × Market N
  sell yes shares m =
      let new_yes = num.plus m.reserve_yes shares in
      let new_no = num.over (num.times m.reserve_yes m.reserve_no) new_yes in
      (num.minus m.reserve_no new_no, record m { reserve_yes = new_yes; reserve_no = new_no })
  sell no shares m =
      let new_no = num.plus m.reserve_no shares in
      let new_yes = num.over (num.times m.reserve_yes m.reserve_no) new_no in
      (num.minus m.reserve_yes new_yes, record m { reserve_yes = new_yes; reserve_no = new_no })

  -- `x <= 0`
  abbrev pub not_positive : N → Bool
  not_positive x = num.le x (num.ratio 0 1)

  abbrev pub no_shares : Holding N
  no_shares = record { yes = num.ratio 0 1; no = num.ratio 0 1 }

  unfoldable pub register_agent : Agent → MarketEnvironment N → MarketEnvironment N
  register_agent agent e =
      if is_some (lookup agent.id e.portfolios)
      then e
      else record e { portfolios = insert agent.id (newcomer e) e.portfolios }

  -- A purchase that passed the tests.
  unfoldable pub complete_buy :
      Agent → Portfolio N → Text → Outcome → N → Market N → MarketEnvironment N → Step N
  complete_buy agent portfolio market_id outcome amount market e =
      let (shares, market2) = buy outcome amount market in
      let holding = get_or (lookup market_id portfolio.shares) no_shares in
      let trade : Trade N = record {
        is_buy = true;
        market_id = market_id;
        outcome = outcome;
        shares = shares;
        money = amount;
        price = price_yes market2;
        round = e.round;
      } in
      (
        success (traded trade),
        record e {
          markets = insert market_id market2 e.markets;
          portfolios =
              insert agent.id
                (record {
                  balance = num.minus portfolio.balance amount;
                  shares =
                      insert market_id
                        (set_held outcome (num.plus (held_in outcome holding) shares) holding)
                        portfolio.shares;
                })
                e.portfolios;
          trades = e.trades ++ trade ∷ [];
        },
      )

  unfoldable pub buy_shares : Agent → Portfolio N → MarketArgs N → MarketEnvironment N → Step N
  buy_shares agent portfolio args e =
      let amount = get_or args.amount (num.ratio 0 1) in
      elim (normalize_outcome args.outcome) [
        | none ↦ (failure (codes "invalid outcome"), e)
        | some outcome ↦ elim args.market_id [
          | none ↦ (failure (codes "unknown market: None"), e)
          | some market_id ↦ elim (lookup market_id e.markets) [
            | none ↦ (failure (codes "unknown market: " ++ market_id), e)
            | some market ↦
                if not_positive amount
                then (failure (codes "amount must be positive"), e)
                else if num.lt portfolio.balance amount
                then (failure (codes "insufficient balance"), e)
                else complete_buy agent portfolio market_id outcome amount market e
          ]
        ]
      ]

  -- A sale that passed the tests.
  unfoldable pub complete_sell :
      Agent → Portfolio N → Text → Outcome → N → Market N → MarketEnvironment N → Step N
  complete_sell agent portfolio market_id outcome shares market e =
      let (proceeds, market2) = sell outcome shares market in
      let holding = get_or (lookup market_id portfolio.shares) no_shares in
      let trade : Trade N = record {
        is_buy = false;
        market_id = market_id;
        outcome = outcome;
        shares = shares;
        money = proceeds;
        price = price_yes market2;
        round = e.round;
      } in
      (
        success (traded trade),
        record e {
          markets = insert market_id market2 e.markets;
          portfolios =
              insert agent.id
                (record {
                  balance = num.plus portfolio.balance proceeds;
                  shares =
                      insert market_id
                        (set_held outcome (num.minus (held_in outcome holding) shares) holding)
                        portfolio.shares;
                })
                e.portfolios;
          trades = e.trades ++ trade ∷ [];
        },
      )

  unfoldable pub sell_shares : Agent → Portfolio N → MarketArgs N → MarketEnvironment N → Step N
  sell_shares agent portfolio args e =
      let shares = get_or args.shares (num.ratio 0 1) in
      elim (normalize_outcome args.outcome) [
        | none ↦ (failure (codes "invalid outcome"), e)
        | some outcome ↦ elim args.market_id [
          | none ↦ (failure (codes "unknown market: None"), e)
          | some market_id ↦ elim (lookup market_id e.markets) [
            | none ↦ (failure (codes "unknown market: " ++ market_id), e)
            | some market ↦
                let held = held_in outcome (get_or (lookup market_id portfolio.shares) no_shares) in
                if not_positive shares
                then (failure (codes "shares must be positive"), e)
                else if num.lt held shares
                then (record { success = false; payload = insufficient_shares held }, e)
                else complete_sell agent portfolio market_id outcome shares market e
          ]
        ]
      ]

  unfoldable pub comment_on_market : Agent → MarketArgs N → MarketEnvironment N → Step N
  comment_on_market agent args e =
      let text = get_or args.text [] in
      (
        success (commented args.market_id text),
        record e {
          comments =
              e.comments
              ++ record { agent_id = agent.id; market_id = args.market_id; text = text } ∷ [];
        },
      )

  abbrev listing : Text × Market N → Listing N
  listing m = record {
    market_id = m.1.id;
    question = m.1.question;
    price_yes = price_yes m.1;
    price_no = price_no m.1;
  }

  unfoldable pub browse_markets : MarketEnvironment N → Step N
  browse_markets e = (success (listed (map listing e.markets)), e)

  -- The table of handlers.
  unfoldable pub dispatch : Agent → Text → Portfolio N → MarketArgs N → MarketEnvironment N → Step N
  dispatch agent action_type portfolio args e =
      if text_eq action_type (codes "buy_shares")
      then buy_shares agent portfolio args e
      else if text_eq action_type (codes "sell_shares")
      then sell_shares agent portfolio args e
      else if text_eq action_type (codes "browse_markets")
      then browse_markets e
      else if text_eq action_type (codes "comment_on_market")
      then comment_on_market agent args e
      else if text_eq action_type (codes "do_nothing")
      then (success nothing, e)
      else (failure (codes "Unknown action: " ++ action_type), e)

  -- `execute_action`
  unfoldable pub execute_action : Agent → Text → MarketArgs N → MarketEnvironment N → Step N
  execute_action agent action_type args e =
      let registered = register_agent agent e in
      dispatch agent action_type (get_or (lookup agent.id registered.portfolios) (newcomer e)) args
        registered
