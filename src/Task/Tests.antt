-- ===== src/Task/Tests.antt =====
-- A task that runs once and is closed, and one whose execution fails.
use v2node_pro.Prelude.{◌≡◌, ◌⊎◌, refl, true, false, [], ◌∷◌}
use v2node_pro.Task.{
  Task, waiting, new_task, start, close, is_closed, becomes, ends, starts, closes, selects, fails,
  Reaches, here, and_then,
}
use v2node_pro.Task.Laws.{AllMayStop, close-stops}

abbrev closed_task : Task
closed_task = record {
  running = false;
  stop = 1;
  closed = 1 ∷ [];
  next_stop = 2;
  goroutines = waiting 1 ∷ [];
}

run_to_close : Reaches new_task closed_task
unfolding start close
run_to_close = and_then (and_then (and_then here (starts false)) (selects becomes)) closes

close-stops_example :
    AllMayStop closed_task
    × ((is_closed closed_task.stop closed_task.closed ≡ true) ⊎ (closed_task.goroutines ≡ []))
close-stops_example = close-stops closed_task run_to_close refl

abbrev dead_task : Task
dead_task = record { running = true; stop = 1; closed = []; next_stop = 2; goroutines = [] }

run_to_failure : Reaches new_task dead_task
unfolding start
run_to_failure = and_then (and_then here (starts true)) (fails ends)
