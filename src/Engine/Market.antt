-- ===== src/Engine/Market.antt =====
-- simswarm/environments/market.py and market_amm.py: markets, portfolios and actions, over an abstract
-- number type. The arguments of a tool call have the types that its schema states, and each may be
-- missing, and none is NaN; no trade divides by zero, and the keys of a market's specification are there. The text of an error leaves out
-- the value that it names where that is not an id.
pub mod Slug
pub mod Names
pub mod Actions
pub mod Setup
pub mod Cases
pub mod Ledger
pub mod History
pub mod Guards
pub mod Moves
mod Tests
use sim_swarm.Prelude.{
  ℕ, ◌+◌, Bool, true, false, List, [], ◌∷◌, ◌++◌, Option, none, some, not, if◌then◌else◌, is_some,
  get_or, map,
}
use sim_swarm.Prelude.Text.{Text, codes, text_eq, lower}
use sim_swarm.Prelude.Dict.{Dict, text_Eq, lookup, insert, keys}
use sim_swarm.Engine.Types.{Agent, ActionResult, Event}
use sim_swarm.Engine.Number.{Number}
use sim_swarm.Engine.Market.Slug.{unique_slug}

-- `Market`
pub record Market (N : Type 0) : Type 0 where
  pub id : Text
  pub question : Text
  pub reserve_yes : N
  pub reserve_no : N

-- An entry of `MarketConfig.markets`
pub record MarketSpec (N : Type 0) : Type 0 where
  pub question : Text
  pub initial_price_yes : Option N

pub record MarketConfig (N : Type 0) : Type 0 where
  pub markets : List (MarketSpec N)
  pub initial_balance : N
  pub initial_liquidity : N
  pub price_move_event_threshold : N

-- The holdings of one market, the values of "yes" and "no".
pub record Holding (N : Type 0) : Type 0 where
  pub yes : N
  pub no : N

pub record Portfolio (N : Type 0) : Type 0 where
  pub balance : N
  pub shares : Dict Text (Holding N)

pub data Outcome : Type 0 where
  yes : Outcome
  no : Outcome

-- An entry of `_trades`: a purchase with its cost, or a sale with its proceeds.
pub record Trade (N : Type 0) : Type 0 where
  pub is_buy : Bool
  pub market_id : Text
  pub outcome : Outcome
  pub shares : N
  pub money : N
  pub price : N
  pub round : ℕ

pub record Comment : Type 0 where
  pub agent_id : Text
  pub market_id : Option Text
  pub text : Text

-- The `data` of a price_move event.
pub record PriceMove (N : Type 0) : Type 0 where
  pub market_id : Text
  pub previous : N
  pub current : N

-- `MarketEnvironment`
pub record MarketEnvironment (N : Type 0) : Type 0 where
  pub config : MarketConfig N
  pub markets : Dict Text (Market N)
  pub portfolios : Dict Text (Portfolio N)
  pub trades : List (Trade N)
  pub events : List (Event (PriceMove N))
  pub comments : List Comment
  pub last_price : Dict Text N
  pub round : ℕ

-- `action.args`
pub record MarketArgs (N : Type 0) : Type 0 where
  pub market_id : Option Text
  pub outcome : Option Text
  pub amount : Option N
  pub shares : Option N
  pub text : Option Text

-- An entry of the list that browsing gives.
pub record Listing (N : Type 0) : Type 0 where
  pub market_id : Text
  pub question : Text
  pub price_yes : N
  pub price_no : N

-- `ActionResult.data`
pub data MarketReply (N : Type 0) : Type 0 where
  error : Text → MarketReply N
  insufficient_shares : N → MarketReply N
  traded : Trade N → MarketReply N
  commented : Option Text → Text → MarketReply N
  listed : List (Listing N) → MarketReply N
  nothing : MarketReply N

abbrev pub Step : Type 0 → Type 0
Step N = ActionResult (MarketReply N) × MarketEnvironment N

abbrev pub success : {N : Type 0} → MarketReply N → ActionResult (MarketReply N)
success d = record { success = true; payload = d }

abbrev pub failure : {N : Type 0} → Text → ActionResult (MarketReply N)
failure message = record { success = false; payload = error message }
