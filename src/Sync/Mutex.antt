-- ===== src/Sync/Mutex.antt =====
-- src/sync/mutex.ts: `IndexMutex`. A step is what runs between two turns of the event loop: watcher
-- events and calls of `onIdle` come in between the awaits of `run`.
pub mod Laws
use vault_engine.Base.{
  ℕ, Text, Bool, true, false, not, ◌&&◌, Option, none, some, List, [], ◌∷◌, ◌++◌, is_empty,
  if◌then◌else◌,
}
use vault_engine.Base.Dict
use vault_engine.Base.Dict.{Dict}

pub data EventType : Type 0 where
  add change unlink : EventType

pub record PendingEvent : Type 0 where
  pub event_type : EventType
  pub path : Text

-- Where `run` waits: nowhere, on `fn`, or in the loop over `events`, the ones left to process.
pub data Phase : Type 0 where
  at_rest : Phase
  in_fn : Phase
  draining : List PendingEvent → Phase

-- `handled` lists the events given to `processEvent`, `woken` the resolvers called.
pub record Mutex : Type 0 where
  pub running : Bool
  pub queue : Dict PendingEvent
  pub idle_resolvers : List ℕ
  pub phase : Phase
  pub handled : List PendingEvent
  pub woken : List ℕ

abbrev pub fresh : Mutex
fresh = record {
  running = false;
  queue = [];
  idle_resolvers = [];
  phase = at_rest;
  handled = [];
  woken = [];
}

unfoldable pub enqueue : PendingEvent → Mutex → Mutex
enqueue e m = record {
  running = m.running;
  queue = Dict.set m.queue e.path e;
  idle_resolvers = m.idle_resolvers;
  phase = m.phase;
  handled = m.handled;
  woken = m.woken;
}

abbrev pub is_running : Mutex → Bool
is_running m = m.running

-- A promise that is resolved at once is woken.
unfoldable pub on_idle : ℕ → Mutex → Mutex
on_idle resolver m =
    let idle = not m.running && is_empty m.queue in
    record {
      running = m.running;
      queue = m.queue;
      idle_resolvers = if idle then m.idle_resolvers else m.idle_resolvers ++ resolver ∷ [];
      phase = m.phase;
      handled = m.handled;
      woken = if idle then m.woken ++ resolver ∷ [] else m.woken;
    }

-- The call of `run` up to its first await. A call of it while another runs does nothing.
unfoldable pub run : Mutex → Mutex
run m = if m.running then m else record {
  running = true;
  queue = m.queue;
  idle_resolvers = m.idle_resolvers;
  phase = in_fn;
  handled = m.handled;
  woken = m.woken;
}

-- The `finally` block with `notifyIdle`.
unfoldable pub leave : Mutex → Mutex
leave m = record {
  running = false;
  queue = m.queue;
  idle_resolvers = [];
  phase = at_rest;
  handled = m.handled;
  woken = m.woken ++ m.idle_resolvers;
}

abbrev pub events_of : Dict PendingEvent → List PendingEvent
events_of [] = []
events_of ((path, e) ∷ q) = e ∷ events_of q

abbrev pub give : PendingEvent → List PendingEvent → Dict PendingEvent → Mutex → Mutex
give e events q m = record {
  running = m.running;
  queue = q;
  idle_resolvers = m.idle_resolvers;
  phase = draining events;
  handled = m.handled ++ e ∷ [];
  woken = m.woken;
}

-- `events` is the whole queue, which is cleared.
unfoldable pub next_batch : List PendingEvent → Mutex → Mutex
next_batch [] m = leave m
next_batch (e ∷ events) m = give e events [] m

-- The loop from the point where `events` are left: the next event, the next batch, or the end.
unfoldable pub next_event : List PendingEvent → Mutex → Mutex
next_event (e ∷ events) m = give e events m.queue m
next_event [] m = next_batch (events_of m.queue) m

-- The await of `run` ends, by a return or by an exception.
unfoldable pub resume_at : Phase → Bool → Mutex → Mutex
resume_at at_rest thrown m = m
resume_at in_fn thrown m = if thrown then leave m else next_event [] m
resume_at (draining events) thrown m = if thrown then leave m else next_event events m

abbrev pub resume : Bool → Mutex → Mutex
resume thrown m = resume_at m.phase thrown m

-- What may happen next.
pub data Action : Type 0 where
  enqueues : PendingEvent → Action
  awaits_idle : ℕ → Action
  runs : Action
  resumes : Bool → Action

unfoldable pub step : Action → Mutex → Mutex
step (enqueues e) m = enqueue e m
step (awaits_idle r) m = on_idle r m
step runs m = run m
step (resumes thrown) m = resume thrown m

unfoldable pub steps : List Action → Mutex → Mutex
steps [] m = m
steps (a ∷ actions) m = steps actions (step a m)
