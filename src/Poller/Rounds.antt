-- ===== src/Poller/Rounds.antt =====
-- saas/jobs/status.py: the round that the poller reads is the greatest one in the lines.
use sim_swarm.Prelude.{
  ℕ, ◌⊎◌, ◌≤◌, ◌≡◌, List, [], ◌∷◌, Option, none, some, All, arith, inl, inr, ltb, if◌then◌else◌,
  subst, sym, ◌∙◌,
}
use sim_swarm.Prelude.Text.{Text}
use sim_swarm.Poller.Logs.{round_of, best_round, extract_live_status}

-- A round that is at least `n`.
abbrev pub AtLeast : ℕ → Option ℕ → Type 0
AtLeast n none = ⊥
AtLeast n (some m) = n ≤ m

-- No line tells a greater round.
abbrev pub Bounds : Option ℕ → Text → Type 0
Bounds best line = (n : ℕ) → round_of line ≡ some n → AtLeast n best

-- Some line tells the round.
abbrev pub Told : ℕ → List Text → Type 0
Told n [] = ⊥
Told n (line ∷ lines) = (round_of line ≡ some n) ⊎ Told n lines

-- Of the best so far and a line's round, the greater.
abbrev better : Option ℕ → Option ℕ → Option ℕ
better best none = best
better none (some candidate) = some candidate
better (some n) (some candidate) = if ltb n candidate then some candidate else some n

best_round-cons :
    (best : Option ℕ) (line : Text) (lines : List Text)
    → best_round best (line ∷ lines) ≡ best_round (better best (round_of line)) lines
unfolding best_round
best_round-cons best line lines = ground arith

better-keeps : (best found : Option ℕ) (n : ℕ) → AtLeast n best → AtLeast n (better best found)
better-keeps best found n h = ground (arith, h)

better-takes : (best found : Option ℕ) (n : ℕ) → found ≡ some n → AtLeast n (better best found)
better-takes best found n h = ground (arith, h)

better-is_one :
    (best found : Option ℕ) (n : ℕ)
    → better best found ≡ some n
    → (best ≡ some n) ⊎ (found ≡ some n)
better-is_one best found n h = ground (arith, h)

best_round-keeps :
    (best : Option ℕ) (lines : List Text) (n : ℕ)
    → AtLeast n best
    → AtLeast n (best_round best lines)
unfolding best_round
best_round-keeps best [] n h = h
best_round-keeps best (line ∷ lines) n h =
    rw (best_round-cons best line lines) (
      best_round-keeps (better best (round_of line)) lines n
        (better-keeps best (round_of line) n h))

best_round-Bounds :
    (best : Option ℕ) (lines : List Text) → All (Bounds (best_round best lines)) lines
best_round-Bounds best [] = tt
best_round-Bounds best (line ∷ lines) =
    subst (λ b. All (Bounds b) (line ∷ lines)) (sym (best_round-cons best line lines))
      (
        λ n e.
            best_round-keeps (better best (round_of line)) lines n
              (better-takes best (round_of line) n e),
        best_round-Bounds (better best (round_of line)) lines,
      )

best_round-Told :
    (best : Option ℕ) (lines : List Text) (n : ℕ)
    → best_round best lines ≡ some n
    → (best ≡ some n) ⊎ Told n lines
unfolding best_round
best_round-Told best [] n h = inl h
best_round-Told best (line ∷ lines) n h =
    elim (best_round-Told (better best (round_of line)) lines n
      (sym (best_round-cons best line lines) ∙ h)) [
        | inr later ↦ inr (inr later)
        | inl now ↦ elim (better-is_one best (round_of line) n now) [
          | inl before ↦ inl before
          | inr here ↦ inr (inl here)
        ]
      ]

-- The round in the live status is told by some line, and no line tells a greater one.
pub extract-greatest :
    (log_lines : List Text) (max_rounds : Option ℕ)
    → let live = extract_live_status log_lines max_rounds in
      ((n : ℕ) → live.round ≡ some n → Told n log_lines) × All (Bounds live.round) log_lines
unfolding extract_live_status
extract-greatest log_lines max_rounds = (
  λ n e. elim (best_round-Told none log_lines n e) [
    | inl before ↦ ground (arith, before)
    | inr told ↦ told
  ],
  best_round-Bounds none log_lines,
)
