-- ===== src/Poller/Logs.antt =====
-- saas/jobs/status.py, and the two patterns of saas/jobs/pipeline.py: what the poller reads from the
-- pod's log lines. The regular expressions are matchers on ASCII code points.
use sim_swarm.Prelude.{
  ℕ, ◌+◌, ◌*◌, ◌-◌, Bool, false, List, [], ◌∷◌, ◌++◌, Option, none, some, ◌&&◌, ◌||◌, not, ltb, leb,
  ◌==◌, if◌then◌else◌, select, length, take_last, is_some,
}
use sim_swarm.Prelude.Text.{Text, codes, is_empty, starts_with, contains, is_space, strip, lower}

-- `" ".join(lines)`
unfoldable pub join : List Text → Text
join [] = []
join (line ∷ []) = line
join (line ∷ next ∷ lines) = line ++ b' ' ∷ join (next ∷ lines)

-- `_infer_pipeline_stage`
unfoldable pub infer_pipeline_stage : List Text → Option ℕ
infer_pipeline_stage log_lines =
    let log_text = join log_lines in
    if contains (codes "report") (lower log_text)
    then some 5
    else if contains (codes "preparing") log_text
    then some 4
    else if contains (codes "Running simulation") log_text || contains (codes "round=") log_text
    then some 3
    else if contains (codes "Building") log_text
    then some 2
    else if contains (codes "Generating ontology") log_text
    then some 1
    else none

-- `_LOG_NOISE_RE.search(line)`
abbrev pub is_noise : Text → Bool
is_noise line =
    contains (codes "GET /") line
    || contains (codes "POST /") line
    || contains (codes "HEAD /") line
    || contains (codes "OPTIONS /") line

abbrev is_digit : ℕ → Bool
is_digit c = leb b'0' c && leb c b'9'

-- `\w`
abbrev is_word : ℕ → Bool
is_word c = is_digit c || (leb b'a' c && leb c b'z') || (leb b'A' c && leb c b'Z') || c == b'_'

-- `[=\s]`
abbrev is_gap : ℕ → Bool
is_gap c = c == b'=' || is_space c

-- `(\d*)` at the head, as a number.
abbrev number_from : Text → ℕ → ℕ
number_from [] n = n
number_from (c ∷ s) n =
    let more = number_from s (n * 10 + (c - b'0')) in if is_digit c then more else n

-- `[=\s]*(\d+)` at the head.
abbrev number_after_gap : Text → Option ℕ
number_after_gap [] = none
number_after_gap (c ∷ s) =
    let rest = number_after_gap s in
    if is_gap c then rest else if is_digit c then some (number_from (c ∷ s) 0) else none

-- `[=\s]+(\d+)` at the head.
abbrev round_number : Text → Option ℕ
round_number [] = none
round_number (c ∷ s) = if is_gap c then number_after_gap s else none

-- `round[=\s]+(\d+)` at the head, case ignored.
abbrev round_at : Text → Option ℕ
round_at (r ∷ o ∷ u ∷ n ∷ d ∷ s) =
    if starts_with (lower (r ∷ o ∷ u ∷ n ∷ d ∷ [])) (codes "round") then round_number s else none
round_at s = none

-- The first match of `\bround[=\s]+(\d+)`; the flag tells whether a word goes on.
abbrev round_from : Bool → Text → Option ℕ
round_from in_word [] = none
round_from in_word (c ∷ s) =
    let rest = round_from (is_word c) s in
    if in_word then rest else elim (round_at (c ∷ s)) [ none ↦ rest | some n ↦ some n ]

-- `re.search(r'\bround[=\s]+(\d+)', line, re.IGNORECASE)`
unfoldable pub round_of : Text → Option ℕ
round_of line = round_from false line

-- A match of `\bllm\.chat`, case ignored.
abbrev llm_from : Bool → Text → Bool
llm_from in_word [] = false
llm_from in_word (c ∷ s) =
    (not in_word && starts_with (lower (c ∷ s)) (codes "llm.chat")) || llm_from (is_word c) s

-- `_LLM_LINE_RE.search(line)`
unfoldable pub is_llm_line : Text → Bool
is_llm_line line = llm_from false line || is_some (round_of line)

-- `_ERROR_LINE_RE.search(line)`
unfoldable pub is_error_line : Text → Bool
is_error_line line = contains (codes "transient error") (lower line)

-- The loop over the lines that keeps the greatest round.
unfoldable pub best_round : Option ℕ → List Text → Option ℕ
best_round best [] = best
best_round best (line ∷ lines) =
    best_round
      (elim (round_of line) [
        | none ↦ best
        | some candidate ↦ elim best [
          | none ↦ some candidate
          | some n ↦ if ltb n candidate then some candidate else some n
        ]
      ])
      lines

-- The `live` dictionary; `partial_chat` is added by the poller.
pub record Live : Type 0 where
  pub log_lines : List Text
  pub round : Option ℕ
  pub max_rounds : Option ℕ
  pub partial_chat : Option (List Text)

-- `_extract_live_status`
unfoldable pub extract_live_status : List Text → Option ℕ → Live
extract_live_status log_lines max_rounds = record {
  log_lines = take_last 3 (
      select
        (λ line. not (is_empty (strip line)) && not (is_noise line) && leb 10 (length (strip line)))
        log_lines);
  round = best_round none log_lines;
  max_rounds = max_rounds;
  partial_chat = none;
}
