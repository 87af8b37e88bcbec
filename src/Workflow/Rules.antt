-- ===== src/Workflow/Rules.antt =====
-- Rules for the workflow's control flow: a postcondition speaks of the result and the state.
use sim_swarm.Prelude.{◌≡◌}
use sim_swarm.Workflow.Temporal.{Failure, Result, ok, err, Trace, Event}
use sim_swarm.Workflow.Run.{State, M, ◌>>=◌, catch, finally, call, pure, raise, assign_pod, ◌>>◌}
use sim_swarm.Prelude.{◌∷◌, Option, Bool, true, false, if◌then◌else◌, refl}
use sim_swarm.Prelude.Text.{Text}

abbrev pub Post : Type 0 → Type 1
Post A = Result A → State → Type 0

-- `m` started in `s` ends with `P`. It is shut, so that a rule finds its arguments in the goal.
unfoldable pub Leaves : {A : Type 0} → M A → State → Post A → Type 0
Leaves m s P = P (m s).0 (m s).1

pub call-rule :
    {A : Type 0} (P : Post A) (answer : Trace → Result A) (event : Result A → Event) (s : State)
    → ((r : Result A) → P r (record s { trace = event r ∷ s.trace }))
    → Leaves (call answer event) s P
unfolding Leaves call pure raise ◌>>=◌ catch finally assign_pod
call-rule P answer event s h = h (answer s.trace)

bind-split :
    {A B : Type 0} (P : Post A) (R : Post B) (f : A → M B) (out : Result A × State)
    → P out.0 out.1
    → ((a : A) (u : State) → P (ok a) u → Leaves (f a) u R)
    → ((e : Failure) (u : State) → P (err e) u → R (err e) u)
    → Leaves (◌>>=◌ (λ _. out) f) out.1 R
unfolding Leaves call pure raise ◌>>=◌ catch finally assign_pod
bind-split P R f (ok a, u) p good bad = good a u p
bind-split P R f (err e, u) p good bad = bad e u p

pub bind-rule :
    {A B : Type 0} (P : Post A) (R : Post B) (m : M A) (f : A → M B) (s : State)
    → Leaves m s P
    → ((a : A) (u : State) → P (ok a) u → Leaves (f a) u R)
    → ((e : Failure) (u : State) → P (err e) u → R (err e) u)
    → Leaves (m >>= f) s R
unfolding Leaves call pure raise ◌>>=◌ catch finally assign_pod
bind-rule P R m f s = bind-split P R f (m s)

catch-split :
    {A : Type 0} (P R : Post A) (handler : Failure → M A) (out : Result A × State)
    → P out.0 out.1
    → ((a : A) (u : State) → P (ok a) u → R (ok a) u)
    → ((e : Failure) (u : State) → P (err e) u → Leaves (handler e) u R)
    → Leaves (catch (λ _. out) handler) out.1 R
unfolding Leaves call pure raise ◌>>=◌ catch finally assign_pod
catch-split P R handler (ok a, u) p good bad = good a u p
catch-split P R handler (err e, u) p good bad = bad e u p

pub catch-rule :
    {A : Type 0} (P R : Post A) (m : M A) (handler : Failure → M A) (s : State)
    → Leaves m s P
    → ((a : A) (u : State) → P (ok a) u → R (ok a) u)
    → ((e : Failure) (u : State) → P (err e) u → Leaves (handler e) u R)
    → Leaves (catch m handler) s R
unfolding Leaves call pure raise ◌>>=◌ catch finally assign_pod
catch-rule P R m handler s = catch-split P R handler (m s)

-- The `finally` block keeps the result, unless it raises.
abbrev pub After : {A : Type 0} → Post A → Result A → Post (Unit {0})
After R r (ok x) v = R r v
After R r (err e) v = R (err e) v

finally-split :
    {A : Type 0} (R : Post A) (r : Result A) (out : Result (Unit {0}) × State)
    → After R r out.0 out.1
    → Leaves (finally (λ s. (r, s)) (λ _. out)) out.1 R
unfolding Leaves call pure raise ◌>>=◌ catch finally assign_pod
finally-split R r (ok x, u) h = h
finally-split R r (err e, u) h = h

pub finally-rule :
    {A : Type 0} (P R : Post A) (m : M A) (last : M (Unit {0})) (s : State)
    → Leaves m s P
    → ((r : Result A) (u : State) → P r u → Leaves last u (After R r))
    → Leaves (finally m last) s R
unfolding Leaves call pure raise ◌>>=◌ catch finally assign_pod
finally-rule P R m last s h k = finally-split R (m s).0 (last (m s).1) (k (m s).0 (m s).1 h)

-- A call is noted, and the rest goes on from its answer.
pub call-bind-rule :
    {A B : Type 0} (R : Post B) (answer : Trace → Result A) (event : Result A → Event) (f : A → M B)
    (s : State)
    → ((a : A) → Leaves (f a) (record s { trace = event (ok a) ∷ s.trace }) R)
    → ((e : Failure) → R (err e) (record s { trace = event (err e) ∷ s.trace }))
    → Leaves (call answer event >>= f) s R
unfolding Leaves call pure raise ◌>>=◌ catch finally assign_pod
call-bind-rule {A} R answer event f s good bad = split (answer s.trace)
  where
    split : (r : Result A) → Leaves (call (λ _. r) event >>= f) s R
    split (ok a) = good a
    split (err e) = bad e

-- `try:` one call, with a value made of its answer.
pub call-catch-rule :
    {A B : Type 0} (R : Post B) (answer : Trace → Result A) (event : Result A → Event) (g : A → B)
    (handler : Failure → M B) (s : State)
    → ((a : A) → R (ok (g a)) (record s { trace = event (ok a) ∷ s.trace }))
    → ((e : Failure) → Leaves (handler e) (record s { trace = event (err e) ∷ s.trace }) R)
    → Leaves (catch (call answer event >>= λ a. pure (g a)) handler) s R
unfolding Leaves call pure raise ◌>>=◌ catch finally assign_pod
call-catch-rule {A} R answer event g handler s good bad = split (answer s.trace)
  where
    split : (r : Result A) → Leaves (catch (call (λ _. r) event >>= λ a. pure (g a)) handler) s R
    split (ok a) = good a
    split (err e) = bad e

pub assign-rule :
    {A : Type 0} (R : Post A) (o : Option Text) (m : M A) (s : State)
    → Leaves m (record s { pod = o }) R
    → Leaves (assign_pod o >> m) s R
unfolding Leaves call pure raise ◌>>=◌ catch finally assign_pod
assign-rule R o m s h = h

pub pure-rule : {A : Type 0} (R : Post A) (a : A) (s : State) → R (ok a) s → Leaves (pure a) s R
unfolding Leaves call pure raise ◌>>=◌ catch finally assign_pod
pure-rule R a s h = h

pub raise-rule :
    {A : Type 0} (R : Post A) (e : Failure) (s : State) → R (err e) s → Leaves (raise e) s R
unfolding Leaves call pure raise ◌>>=◌ catch finally assign_pod
raise-rule R e s h = h

pub weaken-rule :
    {A : Type 0} (P R : Post A) (m : M A) (s : State)
    → Leaves m s P
    → ((r : Result A) (u : State) → P r u → R r u)
    → Leaves m s R
unfolding Leaves call pure raise ◌>>=◌ catch finally assign_pod
weaken-rule P R m s h k = k _ _ h

pub if-rule :
    {A : Type 0} (R : Post A) (b : Bool) (m n : M A) (s : State)
    → (b ≡ true → Leaves m s R)
    → (b ≡ false → Leaves n s R)
    → Leaves (if b then m else n) s R
if-rule R true m n s h k = h refl
if-rule R false m n s h k = k refl
