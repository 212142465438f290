-- ===== src/Task.antt =====
-- common/task/task.go: a periodic task and its goroutines, as a step relation. A `Stop` channel is a
-- number; a goroutine reads the field `t.Stop` each time that it comes to its `select`, and then
-- waits for the channel that it has read. An execution that has timed out and still runs is left out.
pub mod Laws
pub mod Tests
use v2node_pro.Prelude.{
  ℕ, suc, ◌≡◌, Bool, true, false, ◌||◌, Option, none, some, List, [], ◌∷◌, nat_beq, if◌then◌else◌,
}

-- Where a goroutine is: before its `select`, in it, or in ExecuteWithTimeout.
pub data Phase : Type 0 where
  looping : Phase
  waiting : ℕ → Phase
  executing : Phase

pub record Task : Type 0 where
  pub running : Bool
  pub stop : ℕ
  pub closed : List ℕ
  pub next_stop : ℕ
  pub goroutines : List Phase

-- a task that was never started; its `Stop` is nil, and no goroutine looks at it
abbrev pub new_task : Task
new_task = record { running = false; stop = 0; closed = []; next_stop = 1; goroutines = [] }

unfoldable pub is_closed : ℕ → List ℕ → Bool
is_closed ch [] = false
is_closed ch (c ∷ cs) = nat_beq ch c || is_closed ch cs

-- Start
unfoldable pub start : Bool → Task → Task
start first t = if t.running then t else record t {
  running = true;
  stop = t.next_stop;
  next_stop = suc t.next_stop;
  goroutines = (if first then executing else looping) ∷ t.goroutines;
}

-- Close, by safeStop
unfoldable pub close : Task → Task
close t = if t.running then record t { running = false; closed = t.stop ∷ t.closed } else t

-- One goroutine of a list becomes another, or ends.
pub data Moves : List Phase → Phase → Option Phase → List Phase → Type 0 where
  becomes : {g h : Phase} {gs : List Phase} → Moves (g ∷ gs) g (some h) (h ∷ gs)
  ends : {g : Phase} {gs : List Phase} → Moves (g ∷ gs) g none gs
  later :
      {x g : Phase} {o : Option Phase} {gs gs' : List Phase}
      → Moves gs g o gs'
      → Moves (x ∷ gs) g o (x ∷ gs')

-- A call of Start or Close, or a move of a goroutine: it reads `t.Stop`; its timer fires; it finds its
-- channel closed; the execution ends without an error, which a timeout also does; or with one.
pub data Step : Task → Task → Type 0 where
  starts : {t : Task} (first : Bool) → Step t (start first t)
  closes : {t : Task} → Step t (close t)
  selects :
      {t : Task} {gs : List Phase}
      → Moves t.goroutines looping (some (waiting t.stop)) gs
      → Step t (record t { goroutines = gs })
  fires :
      {t : Task} {ch : ℕ} {gs : List Phase}
      → Moves t.goroutines (waiting ch) (some executing) gs
      → Step t (record t { goroutines = gs })
  stops :
      {t : Task} {ch : ℕ} {gs : List Phase}
      → is_closed ch t.closed ≡ true
      → Moves t.goroutines (waiting ch) none gs
      → Step t (record t { goroutines = gs })
  succeeds :
      {t : Task} {gs : List Phase}
      → Moves t.goroutines executing (some looping) gs
      → Step t (record t { goroutines = gs })
  fails :
      {t : Task} {gs : List Phase}
      → Moves t.goroutines executing none gs
      → Step t (record t { goroutines = gs })

-- Any number of steps.
pub data Reaches : Task → Task → Type 0 where
  here : {t : Task} → Reaches t t
  and_then : {s t u : Task} → Reaches s t → Step t u → Reaches s u
