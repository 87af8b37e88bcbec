-- ===== src/Engine/Bridge.antt =====
-- simswarm/bridge.py: the events of all environments, and the digest of them that an agent reads. How
-- Python prints a value is a parameter.
use sim_swarm.Prelude.{
  ℕ, Bool, List, [], ◌∷◌, ◌++◌, not, select, map, ◌==◌, if◌then◌else◌, get_or, take,
}
use sim_swarm.Prelude.Int.{pos}
use sim_swarm.Prelude.Text.{Text, codes, text_eq}
use sim_swarm.Prelude.Dict.{text_Eq, lookup, member}
use sim_swarm.Engine.Types.{Event}
use sim_swarm.Engine.Value.{Value, text, whole, Payload, ScheduledEvent}

-- How Python prints: `str(value)`, `f"{value:.0%}"`, `value > 0`, and `str` of a dictionary.
pub record Printing : Type 0 where
  pub str : Value → Text
  pub percent : Value → Text
  pub is_positive : Value → Bool
  pub repr : Payload → Text

-- `Bridge.pending_events`
abbrev pub Bridge : Type 0
Bridge = List (Event Payload)

unfoldable pub receive_events : List (Event Payload) → Bridge → Bridge
receive_events events pending = pending ++ events

unfoldable pub clear : Bridge → Bridge
clear pending = []

abbrev pub scheduled_event : ScheduledEvent → Event Payload
scheduled_event se = record {
  source = codes "scheduled";
  type = se.type;
  payload = se.payload;
  round = se.round;
}

unfoldable pub inject_scheduled : List ScheduledEvent → ℕ → Bridge → Bridge
inject_scheduled scheduled current_round pending =
    pending ++ map scheduled_event (select (λ se. se.round == current_round) scheduled)

-- `"\n".join(lines)`
unfoldable pub join_lines : List Text → Text
join_lines [] = []
join_lines (line ∷ []) = line
join_lines (line ∷ next ∷ lines) = line ++ 10 ∷ join_lines (next ∷ lines)

module _ (py : Printing) where
  -- `_format_event`
  unfoldable pub format_event : Event Payload → Text
  format_event event =
      let field : Text → Value → Value = λ key default. get_or (lookup key event.payload) default in
      if text_eq event.type (codes "viral_post")
      then codes "[Social] Trending: \""
        ++ take 80 (py.str (field (codes "text") (text [])))
        ++ codes "\" by "
        ++ py.str (field (codes "author") (text (codes "?")))
      else if text_eq event.type (codes "price_move")
      then codes "[Market] "
        ++ py.str (field (codes "question") (text (codes "?")))
        ++ codes " moved "
        ++ (if py.is_positive (field (codes "delta") (whole (pos 0)))
            then codes "up"
            else codes "down")
        ++ codes " to "
        ++ py.percent (field (codes "price_yes") (whole (pos 0)))
      else if text_eq event.type (codes "policy_change")
      then codes "[Policy] "
        ++ py.str (field (codes "action") (text (codes "unknown")))
        ++ codes ": "
        ++ py.repr event.payload
      else codes "["
        ++ event.source
        ++ codes "] "
        ++ event.type
        ++ codes ": "
        ++ py.repr event.payload

  -- `get_digest` for an agent in some environments.
  unfoldable pub get_digest : List Text → Bridge → Text
  get_digest environments pending =
      join_lines (map format_event (select (λ e. not (member e.source environments)) pending))
