-- ===== src/Task/Laws.antt =====
-- Closing a task releases all that wait, and a task whose execution failed is dead until then.
use v2node_pro.Prelude.{
  ℕ, suc, ◌≡◌, refl, subst, ◌≢◌, Bool, true, false, ◌⊎◌, inl, inr, Option, some, List, [], ◌∷◌, All,
  if◌then◌else◌, arith,
}
use v2node_pro.Task.{
  Task, Phase, looping, waiting, executing, new_task, is_closed, start, close, Moves, Step, Reaches,
  becomes, ends, later, starts, closes, selects, fires, stops, succeeds, fails, here, and_then,
}

-- A goroutine that waits has a closed channel, or that of the running task.
abbrev CanStop : Bool → ℕ → List ℕ → Phase → Type 0
CanStop running stop closed (Phase.looping) = Unit
CanStop running stop closed (Phase.waiting ch) =
    (is_closed ch closed ≡ true) ⊎ ((running ≡ true) × (ch ≡ stop))
CanStop running stop closed (Phase.executing) = Unit

abbrev IsMoved : (Phase → Type 0) → Option Phase → Type 0
IsMoved P (Option.none) = Unit
IsMoved P (Option.some g) = P g

Moves-All :
    (P : Phase → Type 0) {gs gs' : List Phase} {g : Phase} {o : Option Phase}
    → Moves gs g o gs'
    → IsMoved P o
    → All P gs
    → All P gs'
Moves-All P becomes q (p, ps) = (q, ps)
Moves-All P ends q (p, ps) = ps
Moves-All P (later m) q (p, ps) = (p, Moves-All P m q ps)

Moves-nil : {gs gs' : List Phase} {g : Phase} {o : Option Phase} → Moves gs g o gs' → ◌≢◌ gs []
Moves-nil becomes e = cc e
Moves-nil ends e = cc e
Moves-nil (later m) e = cc e

All-map : (P Q : Phase → Type 0) (gs : List Phase) → ((g : Phase) → P g → Q g) → All P gs → All Q gs
All-map P Q [] f ps = tt
All-map P Q (g ∷ gs) f (p, ps) = (f g p, All-map P Q gs f ps)

record IsSafe (t : Task) : Type 0 where
  can_stop : All (CanStop t.running t.stop t.closed) t.goroutines
  live : (t.running ≡ true) ⊎ (is_closed t.stop t.closed ≡ true) ⊎ (t.goroutines ≡ [])

new_task-IsSafe : IsSafe new_task
new_task-IsSafe = record { can_stop = tt; live = inr (inr refl) }

-- After a start the old goroutines can stop, since their channels are closed.
restarted :
    (stop next_stop : ℕ) (closed : List ℕ) (g : Phase)
    → CanStop false stop closed g
    → CanStop true next_stop closed g
restarted stop next_stop closed (Phase.looping) p = tt
restarted stop next_stop closed (Phase.waiting ch) (inl e) = inl e
restarted stop next_stop closed (Phase.waiting ch) (inr e) = cc e.0
restarted stop next_stop closed (Phase.executing) p = tt

halted :
    (stop : ℕ) (closed : List ℕ) (g : Phase)
    → CanStop true stop closed g
    → CanStop false stop (stop ∷ closed) g
unfolding is_closed
halted stop closed (Phase.looping) p = tt
halted stop closed (Phase.waiting ch) (inl e) = inl (ground (arith, e))
halted stop closed (Phase.waiting ch) (inr e) = inl (ground (arith, e.1))
halted stop closed (Phase.executing) p = tt

begun :
    (first : Bool) (stop : ℕ) (closed : List ℕ)
    → CanStop true stop closed (if first then executing else looping)
begun true stop closed = tt
begun false stop closed = tt

start_if-IsSafe :
    (first : Bool) (t : Task) (r : Bool)
    → t.running ≡ r
    → IsSafe t
    → IsSafe (
        if r then t else record t {
          running = true;
          stop = t.next_stop;
          next_stop = suc t.next_stop;
          goroutines = (if first then executing else looping) ∷ t.goroutines;
        })
start_if-IsSafe first t true e s = s
start_if-IsSafe first t false e s = record {
  can_stop = (
    begun first t.next_stop t.closed,
    All-map _ _ t.goroutines (restarted t.stop t.next_stop t.closed)
        (subst (λ r. All (CanStop r t.stop t.closed) t.goroutines) e s.can_stop),
  );
  live = inl refl;
}

close_if-IsSafe :
    (t : Task) (r : Bool)
    → t.running ≡ r
    → IsSafe t
    → IsSafe (if r then record t { running = false; closed = t.stop ∷ t.closed } else t)
unfolding is_closed
close_if-IsSafe t false e s = s
close_if-IsSafe t true e s = record {
  can_stop =
      All-map _ _ t.goroutines (halted t.stop t.closed)
        (subst (λ r. All (CanStop r t.stop t.closed) t.goroutines) e s.can_stop);
  live = inr (inl (ground arith));
}

-- A goroutine that comes to its `select` finds a channel that will end it.
selected :
    (t : Task) {gs : List Phase}
    → IsSafe t
    → Moves t.goroutines looping (some (waiting t.stop)) gs
    → CanStop t.running t.stop t.closed (waiting t.stop)
selected t s m = elim s.live [
  | inl running ↦ inr (running, refl)
  | inr rest ↦ elim rest [ inl closed ↦ inl closed | inr empty ↦ absurd (Moves-nil m empty) ]
]

-- Only the goroutines change.
moved :
    (t : Task) {gs : List Phase} {g : Phase} {o : Option Phase}
    → IsSafe t
    → Moves t.goroutines g o gs
    → IsMoved (CanStop t.running t.stop t.closed) o
    → IsSafe (record t { goroutines = gs })
moved t s m q = record {
  can_stop = Moves-All _ m q s.can_stop;
  live = elim s.live [
    | inl running ↦ inl running
    | inr rest ↦
        inr (elim rest [ inl closed ↦ inl closed | inr empty ↦ absurd (Moves-nil m empty) ])
  ];
}

Step-IsSafe : {t u : Task} → Step t u → IsSafe t → IsSafe u
unfolding start close
Step-IsSafe {t} (starts first) s = start_if-IsSafe first t t.running refl s
Step-IsSafe {t} closes s = close_if-IsSafe t t.running refl s
Step-IsSafe {t} (selects m) s = moved t s m (selected t s m)
Step-IsSafe {t} (fires m) s = moved t s m tt
Step-IsSafe {t} (stops closed m) s = moved t s m tt
Step-IsSafe {t} (succeeds m) s = moved t s m tt
Step-IsSafe {t} (fails m) s = moved t s m tt

Reaches-IsSafe : {t u : Task} → Reaches t u → IsSafe t → IsSafe u
Reaches-IsSafe here s = s
Reaches-IsSafe (and_then r step) s = Step-IsSafe step (Reaches-IsSafe r s)

-- Every goroutine that waits may stop.
abbrev pub AllMayStop : Task → Type 0
AllMayStop t = All (CanStop false t.stop t.closed) t.goroutines

-- Whenever a task is not running, after any calls of Start and Close, from any goroutines, and any
-- moves of its goroutines, then every goroutine of it that waits in its `select` finds its channel
-- closed, and one that comes to the `select` finds `t.Stop` closed: none is left to fire for ever.
pub close-stops :
    (t : Task)
    → Reaches new_task t
    → t.running ≡ false
    → AllMayStop t × ((is_closed t.stop t.closed ≡ true) ⊎ (t.goroutines ≡ []))
close-stops t r e =
    let s = Reaches-IsSafe r new_task-IsSafe in
    (
      subst (λ b. All (CanStop b t.stop t.closed) t.goroutines) e s.can_stop,
      elim s.live [ inl running ↦ cc (running, e) | inr rest ↦ rest ],
    )

started_again :
    (first : Bool) (t : Task) (r : Bool)
    → r ≡ true
    → (if r then t else record t {
      running = true;
      stop = t.next_stop;
      next_stop = suc t.next_stop;
      goroutines = (if first then executing else looping) ∷ t.goroutines;
    })
      ≡ t
started_again first t true e = refl
started_again first t false e = cc e

abbrev pub is_close : {t u : Task} → Step t u → Bool
is_close (starts first) = false
is_close closes = true
is_close (selects m) = false
is_close (fires m) = false
is_close (stops closed m) = false
is_close (succeeds m) = false
is_close (fails m) = false

-- A task that counts as running although its last goroutine has ended, as after an execution that
-- failed, never runs again until it is closed: a call of Start changes nothing, and no goroutine
-- can move.
pub dead-step :
    {t u : Task} (step : Step t u)
    → t.running ≡ true
    → t.goroutines ≡ []
    → is_close step ≡ false
    → u ≡ t
unfolding start
dead-step {t} (starts first) running empty open_still = started_again first t t.running running
dead-step closes running empty open_still = cc open_still
dead-step (selects m) running empty open_still = absurd (Moves-nil m empty)
dead-step (fires m) running empty open_still = absurd (Moves-nil m empty)
dead-step (stops closed m) running empty open_still = absurd (Moves-nil m empty)
dead-step (succeeds m) running empty open_still = absurd (Moves-nil m empty)
dead-step (fails m) running empty open_still = absurd (Moves-nil m empty)
