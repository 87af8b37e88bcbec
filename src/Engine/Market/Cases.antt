-- ===== src/Engine/Market/Cases.antt =====
-- market.py: the ways in which an action can end.
use sim_swarm.Prelude.{
  String, ◌≡◌, refl, Bool, true, false, [], ◌∷◌, ◌++◌, some, get_or, if◌then◌else◌, if-both,
  if-split, Option-cases, inl, inr,
}
use sim_swarm.Prelude.Text.{Text, codes, text_eq}
use sim_swarm.Prelude.Dict.{text_Eq, lookup}
use sim_swarm.Engine.Types.{Agent}
use sim_swarm.Engine.Number.{Number}
use sim_swarm.Engine.Market.{
  Market, MarketEnvironment, Portfolio, Outcome, MarketArgs, MarketReply, Step, error,
  insufficient_shares, traded, commented, listed, nothing, Comment, failure,
}
use sim_swarm.Engine.Market.Actions.{
  register_agent, complete_buy, buy_shares, complete_sell, sell_shares, comment_on_market,
  browse_markets, dispatch, execute_action, normalize_outcome, newcomer, no_shares, held_in,
  not_positive,
}

abbrev pub is_trade : {N : Type 0} → MarketReply N → Bool
is_trade (error t) = false
is_trade (insufficient_shares h) = false
is_trade (traded t) = true
is_trade (commented m t) = false
is_trade (listed l) = false
is_trade nothing = false

module _ {κ} {N : Type 0} (num : Number N) (P : Step N → Type κ) (agent : Agent) where
  -- What is to be shown of each way to end, in a state where the agent has a portfolio.
  pub record Endings (portfolio : Portfolio N) (e : MarketEnvironment N) : Type κ where
    pub quiet :
        (ok : Bool) (d : MarketReply N)
        → is_trade d ≡ false
        → P (record { success = ok; payload = d }, e)
    pub comments :
        (d : MarketReply N) (c : Comment)
        → is_trade d ≡ false
        → P (record { success = true; payload = d }, record e { comments = e.comments ++ c ∷ [] })
    pub buys :
        (id : Text) (outcome : Outcome) (amount : N) (market : Market N)
        → lookup id e.markets ≡ some market
        → not_positive num amount ≡ false
        → num.lt portfolio.balance amount ≡ false
        → P (complete_buy num agent portfolio id outcome amount market e)
    pub sells :
        (id : Text) (outcome : Outcome) (shares : N) (market : Market N)
        → lookup id e.markets ≡ some market
        → not_positive num shares ≡ false
        → num.lt (held_in outcome (get_or (lookup id portfolio.shares) (no_shares num))) shares
          ≡ false
        → P (complete_sell num agent portfolio id outcome shares market e)

  buy_shares-ends :
      (args : MarketArgs N) (portfolio : Portfolio N) (e : MarketEnvironment N)
      → Endings portfolio e
      → P (buy_shares num agent portfolio args e)
  unfolding buy_shares
  buy_shares-ends args portfolio e h =
      let amount = get_or args.amount (num.ratio 0 1) in
      elim (Option-cases (normalize_outcome args.outcome)) [
        | inl n ↦ rw (n, buy_shares) (h.quiet false (error (codes "invalid outcome")) refl)
        | inr (outcome, o) ↦
            rw (o, buy_shares)
              (elim (Option-cases args.market_id) [
                | inl n ↦ rw n (h.quiet false (error (codes "unknown market: None")) refl)
                | inr (id, i) ↦ rw i (elim (Option-cases (lookup id e.markets)) [
                  | inl n ↦ rw n (h.quiet false (error (codes "unknown market: " ++ id)) refl)
                  | inr (market, m) ↦ rw m (
                      if-split P (not_positive num amount)
                        (failure (codes "amount must be positive"), e)
                        (if num.lt portfolio.balance amount
                          then (failure (codes "insufficient balance"), e)
                          else (complete_buy num agent portfolio id outcome amount market e))
                        (λ t. h.quiet false (error (codes "amount must be positive")) refl)
                        (λ positive.
                          if-split P (num.lt portfolio.balance amount)
                            (failure (codes "insufficient balance"), e)
                            (complete_buy num agent portfolio id outcome amount market e)
                            (λ t. h.quiet false (error (codes "insufficient balance")) refl)
                            (λ covered. h.buys id outcome amount market m positive covered)))
                ])
              ])
      ]

  sell_shares-ends :
      (args : MarketArgs N) (portfolio : Portfolio N) (e : MarketEnvironment N)
      → Endings portfolio e
      → P (sell_shares num agent portfolio args e)
  unfolding sell_shares
  sell_shares-ends args portfolio e h =
      let shares = get_or args.shares (num.ratio 0 1) in
      elim (Option-cases (normalize_outcome args.outcome)) [
        | inl n ↦ rw (n, sell_shares) (h.quiet false (error (codes "invalid outcome")) refl)
        | inr (outcome, o) ↦
            rw (o, sell_shares)
              (elim (Option-cases args.market_id) [
                | inl n ↦ rw n (h.quiet false (error (codes "unknown market: None")) refl)
                | inr (id, i) ↦ rw i (elim (Option-cases (lookup id e.markets)) [
                  | inl n ↦ rw n (h.quiet false (error (codes "unknown market: " ++ id)) refl)
                  | inr (market, m) ↦ rw m (
                      let held =
                        held_in outcome (get_or (lookup id portfolio.shares) (no_shares num)) in
                      if-split P (not_positive num shares)
                        (failure (codes "shares must be positive"), e)
                        (if num.lt held shares
                          then (record { success = false; payload = insufficient_shares held }, e)
                          else (complete_sell num agent portfolio id outcome shares market e))
                        (λ t. h.quiet false (error (codes "shares must be positive")) refl)
                        (λ positive.
                          if-split P (num.lt held shares)
                            (record { success = false; payload = insufficient_shares held }, e)
                            (complete_sell num agent portfolio id outcome shares market e)
                            (λ t. h.quiet false (insufficient_shares held) refl)
                            (λ covered. h.sells id outcome shares market m positive covered)))
                ])
              ])
      ]

  pub execute_action-ends :
      (action_type : Text) (args : MarketArgs N) (e : MarketEnvironment N)
      → let r = register_agent num agent e in
        Endings (get_or (lookup agent.id r.portfolios) (newcomer e)) r
        → P (execute_action num agent action_type args e)
  unfolding execute_action dispatch browse_markets comment_on_market
  execute_action-ends action_type args e h =
      let r = register_agent num agent e in
      let p = get_or (lookup agent.id r.portfolios) (newcomer e) in
      let is_type = λ (name : String). text_eq action_type (codes name) in
      if-both P (is_type "buy_shares") _ _ (buy_shares-ends args p r h) (
        if-both P (is_type "sell_shares") _ _ (sell_shares-ends args p r h) (
          if-both P (is_type "browse_markets") _ _
            (h.quiet true (browse_markets num r).0.payload refl)
            (if-both P (is_type "comment_on_market") _ _
              (h.comments (comment_on_market num agent args r).0.payload
                (record {
                  agent_id = agent.id;
                  market_id = args.market_id;
                  text = get_or args.text [];
                })
                refl)
              (if-both P (is_type "do_nothing") _ _ (h.quiet true nothing refl)
                (h.quiet false (error (codes "Unknown action: " ++ action_type)) refl)))))
