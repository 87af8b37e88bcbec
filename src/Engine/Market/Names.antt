-- ===== src/Engine/Market/Names.antt =====
-- market.py: `_unique_slug` ends, and gives a free id of bounded length.
use sim_swarm.Prelude.{
  ℕ, zero, suc, ◌+◌, ◌-◌, ◌*◌, ◌/◌, ◌%◌, ◌≤◌, ◌<◌, ◌≡◌, refl, sym, ap, subst, ◌∙◌, true, false,
  ◌&&◌, List, [], ◌∷◌, ◌++◌, none, some, ltb, leb, ◌==◌, if◌then◌else◌, length, take, sum_by,
  OnSome, arith, Bool-cases, Option-cases, inl, inr, length-append, length-take,
}
use sim_swarm.Prelude.Text.{Text, text_eq, text_eq_iff}
use sim_swarm.Prelude.Dict.{text_Eq, member}
use sim_swarm.Engine.Market.Slug.{
  slug_base_max, slug_total_max, question_to_slug, digits, suffix, candidate, next_free,
  unique_slug,
}

-- The number that a text ends in, after its last `_`.
unfoldable read_number : ℕ → Text → ℕ
read_number n [] = n
read_number n (c ∷ s) = read_number (if c == b'_' then 0 else n * 10 + (c - b'0')) s

read_number-append : (s t : Text) (n : ℕ) → read_number n (s ++ t) ≡ read_number (read_number n s) t
unfolding read_number
read_number-append [] t n = refl
read_number-append (c ∷ s) t n = read_number-append s t _

read_number-digits : (fuel n : ℕ) → n ≤ fuel → read_number 0 (digits fuel n) ≡ n
unfolding read_number digits
read_number-digits zero n h = ground (arith, h)
read_number-digits (suc fuel) n h = elim (Bool-cases (ltb n 10)) [
  | inl small ↦ rw small (ground (arith, small))
  | inr big ↦
      let smaller : n / 10 ≤ fuel = ground (arith, h, big) in
      let e = read_number-append (digits fuel (n / 10)) ((b'0' + n % 10) ∷ []) 0 in
      rw (big, e, read_number-digits fuel (n / 10) smaller) (ground arith)
]

-- Whatever base a candidate has, the number that it was made for can be read off its end.
read_number-candidate : (base : Text) (n : ℕ) → read_number 0 (candidate base n) ≡ n
unfolding candidate read_number
read_number-candidate base n =
    let size = length (suffix n) in
    read_number-append
      (if leb size slug_total_max
        then take (slug_total_max - size) base
        else take (length base - (size - slug_total_max)) base)
      (suffix n) 0
    ∙ read_number-digits n n (omega arith)

-- How many texts end in a number, and in a number from some range.
abbrev ends_in : ℕ → Text → ℕ
ends_in v t = if read_number 0 t == v then 1 else 0

abbrev ends_within : ℕ → ℕ → Text → ℕ
ends_within lo size t =
    if leb lo (read_number 0 t) && ltb (read_number 0 t) (lo + size) then 1 else 0

counts_split :
    (lo size : ℕ) (taken : List Text)
    → sum_by (ends_within lo (suc size)) taken
      ≡ sum_by (ends_in lo) taken + sum_by (ends_within (lo + 1) size) taken
counts_split lo size [] = refl
counts_split lo size (t ∷ taken) = ground (arith, counts_split lo size taken)

counts_le : (lo size : ℕ) (taken : List Text) → sum_by (ends_within lo size) taken ≤ length taken
counts_le lo size [] = omega arith
counts_le lo size (t ∷ taken) = ground (arith, counts_le lo size taken)

counts_taken :
    (base : Text) (n : ℕ) (taken : List Text)
    → member (candidate base n) taken ≡ true
    → 1 ≤ sum_by (ends_in n) taken
unfolding member
counts_taken base n [] h = ground (arith, h)
counts_taken base n (t ∷ taken) h = elim (Bool-cases (text_eq (candidate base n) t)) [
  | inl same ↦
      let e =
        ap (read_number 0) (sym ((text_eq_iff (candidate base n) t).0 same))
        ∙ read_number-candidate base n in
      rw e (ground arith)
  | inr other ↦ ground (arith, counts_taken base n taken (ground (arith, h, other)))
]

-- Turns that find nothing free find as many taken names as there are turns.
next_free-counts :
    (turns n : ℕ) (base : Text) (taken : List Text)
    → next_free turns n base taken ≡ none
    → turns ≤ sum_by (ends_within n turns) taken
unfolding next_free
next_free-counts zero n base taken h = omega arith
next_free-counts (suc turns) n base taken h = elim (Bool-cases (member (candidate base n) taken)) [
  | inl old ↦
      let more = next_free-counts turns (n + 1) base taken (ground (arith, h, old)) in
      omega (arith, more, counts_taken base n taken old, counts_split n turns taken)
  | inr new ↦ ground (arith, h, new)
]

next_free-fresh :
    (turns n : ℕ) (base : Text) (taken : List Text)
    → OnSome (λ id. member id taken ≡ false) (next_free turns n base taken)
unfolding next_free
next_free-fresh zero n base taken = tt
next_free-fresh (suc turns) n base taken = elim (Bool-cases (member (candidate base n) taken)) [
  | inl old ↦ rw (old, next_free) (next_free-fresh turns (n + 1) base taken)
  | inr new ↦ rw (new, next_free) new
]

-- Powers of ten.
abbrev pub ten_to : ℕ → ℕ
ten_to zero = 1
ten_to (suc k) = 10 * ten_to k

length-digits : (k fuel n : ℕ) → n < ten_to (suc k) → length (digits fuel n) ≤ suc k
unfolding digits
length-digits k zero n h = omega arith
length-digits zero (suc fuel) n h = ground (arith, h)
length-digits (suc k) (suc fuel) n h = elim (Bool-cases (ltb n 10)) [
  | inl small ↦ rw small (omega arith)
  | inr big ↦
      let smaller : n / 10 < ten_to (suc k) = omega (arith, h) in
      rw big (
        omega (
          arith,
          length-digits k fuel (n / 10) smaller,
          length-append (digits fuel (n / 10)) ((b'0' + n % 10) ∷ []),
        ))
]

abbrev pub digits_max : ℕ
digits_max = 44

length-candidate :
    (base : Text) (n : ℕ) → n < ten_to digits_max → length (candidate base n) ≤ slug_total_max
unfolding candidate
length-candidate base n h =
    let size = length (suffix n) in
    let small : size ≤ slug_total_max = omega (arith, length-digits 43 n n h) in
    ground (
      arith,
      small,
      length-append (take (slug_total_max - size) base) (suffix n),
      length-take (slug_total_max - size) base,
    )

next_free-short :
    (turns n : ℕ) (base : Text) (taken : List Text)
    → n + turns ≤ ten_to digits_max
    → OnSome (λ id. length id ≤ slug_total_max) (next_free turns n base taken)
unfolding next_free
next_free-short zero n base taken h = tt
next_free-short (suc turns) n base taken h = elim (Bool-cases (member (candidate base n) taken)) [
  | inl old ↦ rw (old, next_free) (next_free-short turns (n + 1) base taken (omega (arith, h)))
  | inr new ↦ rw (new, next_free) (length-candidate base n (omega (arith, h)))
]

take-short : (n : ℕ) (s : Text) → length (take n s) ≤ n
take-short n s = omega (arith, length-take n s)

length-question_to_slug : (question : Text) → length (question_to_slug question) ≤ slug_base_max
unfolding question_to_slug
length-question_to_slug question = take-short slug_base_max _

-- An id that no market has.
pub record IsFresh (id : Text) (taken : List Text) : Type 0 where
  pub free : member id taken ≡ false
  pub short : length id ≤ slug_total_max

-- As long as fewer than 10 ^ 44 - 3 ids are taken, the loop finds an id within one turn more than
-- there are ids; no market has it, and it has at most 45 characters.
pub unique_slug-finds :
    (question : Text) (taken : List Text)
    → length taken + 3 ≤ ten_to digits_max
    → (id : Text) × (unique_slug question taken ≡ some id) × IsFresh id taken
unfolding unique_slug
unique_slug-finds question taken h = elim (Bool-cases (member (question_to_slug question) taken)) [
  | inr new ↦ rw new (
    question_to_slug question,
    refl,
    record { free = new; short = omega (arith, length-question_to_slug question) },
  )
  | inl old ↦
      let base = question_to_slug question in
      let turns = suc (length taken) in
      elim (Option-cases (next_free turns 2 base taken)) [
        | inl n ↦
            absurd (omega (arith, next_free-counts turns 2 base taken n, counts_le 2 turns taken))
        | inr (id, e) ↦
            rw (old, e)
              (
                id,
                refl,
                record {
                  free =
                      subst (OnSome (λ i. member i taken ≡ false)) e
                        (next_free-fresh turns 2 base taken);
                  short =
                      subst (OnSome (λ i. length i ≤ slug_total_max)) e
                        (next_free-short turns 2 base taken (omega (arith, h)));
                },
              )
      ]
]
