-- ===== src/Sync/Mutex/Laws.antt =====
-- Laws of `IndexMutex` (src/sync/mutex.ts).
use vault_engine.Base.{
  Text, Bool, true, false, some, List, [], ◌∷◌, ◌++◌, ◌==◌, eq_refl, if◌then◌else◌, ◌≡◌, refl,
  arith, ◌⊎◌, inl, inr, All, IsIn, IsIn-append_left, IsIn-snoc, subst, sym, ◌∙◌, Bool-cases,
}
use mathlib.Core.Logic.{Lift}
use vault_engine.Base.Dict
use vault_engine.Base.Dict.{Dict, get-set}
use vault_engine.Sync.Mutex.{
  PendingEvent, Phase, at_rest, in_fn, draining, Mutex, enqueue, on_idle, run, leave, events_of,
  next_event, next_batch, give, resume_at, Action, enqueues, awaits_idle, runs, resumes, step,
  steps,
}

-- The flag says whether `run` waits anywhere.
abbrev pub is_waiting : Phase → Bool
is_waiting at_rest = false
is_waiting in_fn = true
is_waiting (draining events) = true

abbrev pub IsCoherent : Mutex → Type 0
IsCoherent m = m.running ≡ is_waiting m.phase

next_batch-IsCoherent :
    (events : List PendingEvent) (m : Mutex) → m.running ≡ true → IsCoherent (next_batch events m)
unfolding next_batch leave
next_batch-IsCoherent [] m h = refl
next_batch-IsCoherent (e ∷ events) m h = h

next_event-IsCoherent :
    (events : List PendingEvent) (m : Mutex) → m.running ≡ true → IsCoherent (next_event events m)
unfolding next_event
next_event-IsCoherent [] m h = next_batch-IsCoherent (events_of m.queue) m h
next_event-IsCoherent (e ∷ events) m h = h

resume_at-IsCoherent :
    (p : Phase) (thrown : Bool) (m : Mutex)
    → IsCoherent m
    → m.running ≡ is_waiting p
    → IsCoherent (resume_at p thrown m)
unfolding resume_at leave
resume_at-IsCoherent at_rest thrown m c h = c
resume_at-IsCoherent in_fn true m c h = refl
resume_at-IsCoherent in_fn false m c h = next_event-IsCoherent [] m h
resume_at-IsCoherent (draining events) true m c h = refl
resume_at-IsCoherent (draining events) false m c h = next_event-IsCoherent events m h

step-IsCoherent : (a : Action) (m : Mutex) → IsCoherent m → IsCoherent (step a m)
unfolding step enqueue on_idle run
step-IsCoherent (enqueues e) m h = h
step-IsCoherent (awaits_idle r) m h = h
step-IsCoherent runs m h = elim (Bool-cases m.running) [
  | inl e ↦ rw e (sym e ∙ h)
  | inr e ↦ rw e refl
]
step-IsCoherent (resumes thrown) m h = resume_at-IsCoherent m.phase thrown m h h

-- Along every sequence of calls, events and awaits, `running` is true exactly while `run` waits on its
-- function or on an event.
pub steps-IsCoherent :
    (actions : List Action) (m : Mutex) → IsCoherent m → IsCoherent (steps actions m)
unfolding steps
steps-IsCoherent [] m h = h
steps-IsCoherent (a ∷ actions) m h = steps-IsCoherent actions (step a m) (step-IsCoherent a m h)

-- The events of the batch that is being processed.
abbrev batch : Phase → List PendingEvent
batch at_rest = []
batch in_fn = []
batch (draining events) = events

-- The event waits in the queue or in the batch, or it was handled.
abbrev pub IsKept : PendingEvent → Mutex → Type 0
IsKept e m = (Dict.get m.queue e.path ≡ some e) ⊎ (IsIn e (batch m.phase) ⊎ IsIn e m.handled)

-- No later event on the path comes, and nothing throws.
abbrev pub IsCalm : PendingEvent → Action → Type 0
IsCalm e (enqueues later) = (later.path == e.path) ≡ false
IsCalm e (awaits_idle r) = Unit
IsCalm e runs = Unit
IsCalm e (resumes thrown) = thrown ≡ false

IsIn-events_of :
    (q : Dict PendingEvent) (path : Text) (e : PendingEvent)
    → Dict.get q path ≡ some e
    → IsIn e (events_of q)
unfolding Dict.get
IsIn-events_of [] path e h = absurd (ground arith)
IsIn-events_of ((k, x) ∷ q) path e h = elim (Bool-cases (k == path)) [
  | inl same ↦ inl (ground arith)
  | inr other ↦ inr (IsIn-events_of q path e (rw (other, if◌then◌else◌) at h))
]

leave-IsKept : (e : PendingEvent) (m : Mutex) → IsIn e m.handled → IsKept e (leave m)
unfolding leave
leave-IsKept e m h = inr (inr h)

-- What is kept through the steps of the loop: queue, rest of the batch, or handled.
give-IsKept :
    (e x : PendingEvent) (events : List PendingEvent) (q : Dict PendingEvent) (m : Mutex)
    → (Dict.get q e.path ≡ some e) ⊎ (IsIn e (x ∷ events) ⊎ IsIn e m.handled)
    → IsKept e (give x events q m)
give-IsKept e x events q m (inl h) = inl h
give-IsKept e x events q m (inr (inl (inl same))) =
    inr (inr (subst (λ y. IsIn y (m.handled ++ x ∷ [])) same (IsIn-snoc x m.handled)))
give-IsKept e x events q m (inr (inl (inr later))) = inr (inl later)
give-IsKept e x events q m (inr (inr h)) = inr (inr (IsIn-append_left e m.handled (x ∷ []) h))

next_batch-IsKept :
    (e : PendingEvent) (events : List PendingEvent) (m : Mutex)
    → IsIn e events ⊎ IsIn e m.handled
    → IsKept e (next_batch events m)
unfolding next_batch
next_batch-IsKept e [] m (inl h) = absurd (h.lower)
next_batch-IsKept e [] m (inr h) = leave-IsKept e m h
next_batch-IsKept e (x ∷ events) m h = give-IsKept e x events [] m (inr h)

next_event-IsKept :
    (e : PendingEvent) (events : List PendingEvent) (m : Mutex)
    → (Dict.get m.queue e.path ≡ some e) ⊎ (IsIn e events ⊎ IsIn e m.handled)
    → IsKept e (next_event events m)
unfolding next_event
next_event-IsKept e [] m (inl h) =
    next_batch-IsKept e (events_of m.queue) m (inl (IsIn-events_of m.queue e.path e h))
next_event-IsKept e [] m (inr (inl h)) = absurd (h.lower)
next_event-IsKept e [] m (inr (inr h)) = next_batch-IsKept e (events_of m.queue) m (inr h)
next_event-IsKept e (x ∷ events) m h = give-IsKept e x events m.queue m h

resume_at-IsKept :
    (e : PendingEvent) (p : Phase) (m : Mutex)
    → IsKept e m
    → (Dict.get m.queue e.path ≡ some e) ⊎ (IsIn e (batch p) ⊎ IsIn e m.handled)
    → IsKept e (resume_at p false m)
unfolding resume_at
resume_at-IsKept e at_rest m k h = k
resume_at-IsKept e in_fn m k h = next_event-IsKept e [] m h
resume_at-IsKept e (draining events) m k h = next_event-IsKept e events m h

run-IsKept :
    (e : PendingEvent) (p : Phase) → is_waiting p ≡ false → IsIn e (batch p) → Lift {0, 0} ⊥
run-IsKept e at_rest c h = h
run-IsKept e in_fn c h = cc
run-IsKept e (draining events) c h = cc

step-IsKept :
    (e : PendingEvent) (a : Action) (m : Mutex)
    → IsCoherent m
    → IsCalm e a
    → IsKept e m
    → IsKept e (step a m)
unfolding step enqueue on_idle run
step-IsKept e (enqueues x) m c calm (inl h) =
    inl (get-set m.queue x.path e.path x ∙ rw (calm, if◌then◌else◌) h)
step-IsKept e (enqueues x) m c calm (inr h) = inr h
step-IsKept e (awaits_idle r) m c calm h = h
step-IsKept e runs m c calm h = elim (Bool-cases m.running) [
  | inl busy ↦ rw busy h
  | inr idle ↦ rw idle (elim h [
    | inl q ↦ inl q
    | inr (inl b) ↦ inr (inl (run-IsKept e m.phase (sym c ∙ idle) b))
    | inr (inr d) ↦ inr (inr d)
  ])
]
step-IsKept e (resumes true) m c calm h = absurd (ground arith)
step-IsKept e (resumes false) m c calm h = resume_at-IsKept e m.phase m h h

steps-IsKept :
    (e : PendingEvent) (actions : List Action) (m : Mutex)
    → IsCoherent m
    → All (IsCalm e) actions
    → IsKept e m
    → IsKept e (steps actions m)
unfolding steps
steps-IsKept e [] m c calm h = h
steps-IsKept e (a ∷ actions) m c calm h =
    steps-IsKept e actions (step a m) (step-IsCoherent a m c) calm.1 (step-IsKept e a m c calm.0 h)

-- An event is not lost: from a coherent state, after it is enqueued and as long as no later event on its
-- path is enqueued and no call throws, it waits in the queue or in the batch that is being processed, or
-- it was given to `processEvent`.
pub enqueue-IsKept :
    (e : PendingEvent) (actions : List Action) (m : Mutex)
    → IsCoherent m
    → All (IsCalm e) actions
    → IsKept e (steps actions (enqueue e m))
unfolding enqueue
enqueue-IsKept e actions m c calm =
    steps-IsKept e actions (enqueue e m) c calm
      (inl (get-set m.queue e.path e.path e ∙ rw (eq_refl e.path) refl))
