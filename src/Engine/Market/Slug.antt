-- ===== src/Engine/Market/Slug.antt =====
-- simswarm/environments/market_amm.py and market.py: the names of markets. Questions are ASCII texts.
use sim_swarm.Prelude.{
  ℕ, zero, suc, ◌+◌, ◌-◌, ◌/◌, ◌%◌, Bool, true, false, ◌||◌, ◌&&◌, List, [], ◌∷◌, ◌++◌, Option,
  none, some, ltb, leb, ◌==◌, if◌then◌else◌, length, take,
}
use sim_swarm.Prelude.Text.{Text, lower}
use sim_swarm.Prelude.Dict.{text_Eq, member}
use mathlib.Core.List.{reverse}

abbrev pub slug_base_max : ℕ
slug_base_max = 40

abbrev pub slug_total_max : ℕ
slug_total_max = 45

-- `[a-z0-9]`
abbrev pub is_slug_char : ℕ → Bool
is_slug_char c = (leb b'a' c && leb c b'z') || (leb b'0' c && leb c b'9')

-- `re.sub(r"[^a-z0-9]+", "_", text)`, inside of a run or not.
unfoldable pub collapse : Bool → Text → Text
collapse in_run [] = []
collapse in_run (c ∷ s) = elim (is_slug_char c) [
  | true ↦ c ∷ collapse false s
  | false ↦ let rest = collapse true s in if in_run then rest else b'_' ∷ rest
]

-- `text.lstrip("_")`
unfoldable pub strip_left : Text → Text
strip_left [] = []
strip_left (c ∷ s) = if c == b'_' then strip_left s else c ∷ s

unfoldable pub question_to_slug : Text → Text
question_to_slug question =
    take slug_base_max
      (reverse (strip_left (reverse (strip_left (collapse false (lower question))))))

-- `str(n)`, by a number of digits that suffices.
unfoldable pub digits : ℕ → ℕ → Text
digits zero n = (b'0' + n % 10) ∷ []
digits (suc fuel) n =
    if ltb n 10 then (b'0' + n) ∷ [] else digits fuel (n / 10) ++ (b'0' + n % 10) ∷ []

abbrev pub decimal : ℕ → Text
decimal n = digits n n

-- `f"_{n}"`
abbrev pub suffix : ℕ → Text
suffix n = b'_' ∷ decimal n

-- `base[: SLUG_TOTAL_MAX - len(suffix)] + suffix`, where a negative bound counts from the end.
unfoldable pub candidate : Text → ℕ → Text
candidate base n =
    let size = length (suffix n) in
    (if leb size slug_total_max
      then take (slug_total_max - size) base
      else take (length base - (size - slug_total_max)) base)
    ++ suffix n

-- The loop of `_unique_slug`, for a number of turns.
unfoldable pub next_free : ℕ → ℕ → Text → List Text → Option Text
next_free zero n base taken = none
next_free (suc turns) n base taken = elim (member (candidate base n) taken) [
  | true ↦ next_free turns (n + 1) base taken
  | false ↦ some (candidate base n)
]

-- `_unique_slug`, given the ids of the markets.
unfoldable pub unique_slug : Text → List Text → Option Text
unique_slug question taken =
    let base = question_to_slug question in
    if member base taken then next_free (suc (length taken)) 2 base taken else some base
