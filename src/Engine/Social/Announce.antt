-- ===== src/Engine/Social/Announce.antt =====
-- simswarm/environments/social.py: `tick` against an independent description of what it announces.
use sim_swarm.Prelude.{
  ℕ, ◌+◌, ◌≡◌, refl, sym, ap, ◌∙◌, Bool, true, false, List, [], ◌∷◌, ◌++◌, map, select, arith,
  Bool-cases, inl, inr, ◌&&◌, not, append_assoc, append-nil, subst,
}
use sim_swarm.Prelude.Text.{Text}
use sim_swarm.Prelude.Dict.{Dict, text_Eq, member, add, keys, Distinct, member-append}
use sim_swarm.Prelude.Text.{text_eq_iff}
use sim_swarm.Engine.Types.{Event}
use sim_swarm.Engine.Social.{Post, Social, Viral, announce, reaches, viral_event, tick}
use sim_swarm.Engine.Social.Invariant.{IsSound}

module _ (threshold : ℕ) where
  -- A post at the threshold that has not been announced.
  abbrev pub is_due : List Text → Text × Post → Bool
  is_due seen e = reaches threshold e.1 && not (member e.0 seen)

  -- The posts that are due, in their order.
  abbrev pub due : List Text → Dict Text Post → Dict Text Post
  due seen posts = select (is_due seen) posts

  -- An id that is no key does not matter for what is due.
  due-add :
      (k : Text) (seen : List Text) (posts : Dict Text Post)
      → member k (keys posts) ≡ false
      → due (add k seen) posts ≡ due seen posts
  unfolding member add
  due-add k seen [] h = refl
  due-add k seen ((j, p) ∷ posts) h =
      ground (
        arith,
        due-add k seen posts,
        member-append j seen (k ∷ []),
        text_eq_iff j k,
        text_eq_iff k j,
      )

  skip :
      (noted : List Text) (k : Text) (p : Post) (posts : Dict Text Post)
      → is_due noted (k, p) ≡ false
      → due noted posts ≡ []
      → due noted ((k, p) ∷ posts) ≡ []
  skip noted k p posts n h = rw n h

  due-now :
      (seen : List Text) (k : Text) (p : Post) (posts : Dict Text Post)
      → is_due seen (k, p) ≡ true
      → due seen ((k, p) ∷ posts) ≡ (k, p) ∷ due seen posts
  due-now seen k p posts h = rw h refl

  due-later :
      (seen : List Text) (k : Text) (p : Post) (posts : Dict Text Post)
      → is_due seen (k, p) ≡ false
      → due seen ((k, p) ∷ posts) ≡ due seen posts
  due-later seen k p posts h = rw h refl

  -- What was due is not due again once its ids are noted.
  due-again :
      (seen more : List Text) (posts : Dict Text Post)
      → due (seen ++ (more ++ keys (due seen posts))) posts ≡ []
  unfolding member
  due-again seen more [] = refl
  due-again seen more ((k, p) ∷ posts) = elim (Bool-cases (is_due seen (k, p))) [
    | inl now ↦
        let ids = keys (due seen posts) in
        subst (λ d. due (seen ++ (more ++ keys d)) ((k, p) ∷ posts) ≡ [])
          (sym (due-now seen k p posts now))
          (skip (seen ++ (more ++ k ∷ ids)) k p posts
            (ground (
              arith,
              member-append k seen (more ++ k ∷ ids),
              member-append k more (k ∷ ids),
              text_eq_iff k k,
            ))
            (subst (λ i. due (seen ++ i) posts ≡ []) (append_assoc more (k ∷ []) ids)
              (due-again seen (more ++ k ∷ []) posts)))
    | inr later ↦
        let ids = keys (due seen posts) in
        subst (λ d. due (seen ++ (more ++ keys d)) ((k, p) ∷ posts) ≡ [])
          (sym (due-later seen k p posts later))
          (skip (seen ++ (more ++ ids)) k p posts
            (ground (arith, later, member-append k seen (more ++ ids))) (due-again seen more posts))
  ]

  module _ (round : ℕ) where
    abbrev pub events_of : Dict Text Post → List (Event Viral)
    events_of posts = map (λ e. viral_event round e.0 e.1) posts

    appends :
        (events : List (Event Viral)) (k : Text) (p : Post) (seen : List Text) (d : Dict Text Post)
        → member k seen ≡ false
        → ◌≡◌ {A = List (Event Viral) × List Text}
            ((events ++ viral_event round k p ∷ []) ++ events_of d, add k seen ++ keys d)
            (events ++ events_of ((k, p) ∷ d), seen ++ keys ((k, p) ∷ d))
    unfolding add
    appends events k p seen d n = rw n (
        rw
          (
            append_assoc events (viral_event round k p ∷ []) (events_of d),
            append_assoc seen (k ∷ []) (keys d),
          )
          refl)

    announce-due :
        (posts : Dict Text Post) (events : List (Event Viral)) (seen : List Text)
        → Distinct (keys posts)
        → announce threshold round posts events seen
          ≡ (events ++ events_of (due seen posts), seen ++ keys (due seen posts))
    unfolding announce
    announce-due [] events seen d = rw (append-nil events, append-nil seen) refl
    announce-due ((k, p) ∷ posts) events seen d = elim (Bool-cases (is_due seen (k, p))) [
      | inl now ↦ rw now (
          announce-due posts (events ++ viral_event round k p ∷ []) (add k seen) d.1
          ∙ rw (due-add k seen posts d.0)
              (appends events k p seen (due seen posts) (ground (arith, now))))
      | inr later ↦ rw later (announce-due posts events seen d.1)
    ]

-- On sound posts a round announces exactly the posts that have reached the threshold by likes and
-- reposts and were not announced before, in their order, after what is still pending. It notes their
-- ids, and then no post is due any more.
pub tick_announces :
    (s : Social)
    → IsSound s
    → let now = due s.config.viral_threshold s.new_viral s.posts in
      ((tick s).pending_events
        ≡ s.pending_events ++ events_of s.config.viral_threshold (s.current_round + 1) now)
      × ((tick s).new_viral ≡ s.new_viral ++ keys now)
      × (due s.config.viral_threshold (tick s).new_viral s.posts ≡ [])
unfolding tick
tick_announces s h =
    let run =
      announce-due s.config.viral_threshold (s.current_round + 1) s.posts s.pending_events
        s.new_viral h.unique in
    (
      ap (λ r. r.0) run,
      ap (λ r. r.1) run,
      ap (λ r. due s.config.viral_threshold r.1 s.posts) run
          ∙ due-again s.config.viral_threshold s.new_viral [] s.posts,
    )
