-- ===== src/Timer/Tests.antt =====
-- Alarms of src/timer.c on concrete lists, and the theorems at such inputs.
use boss.Prelude.{◌≡◌, refl, List, [], ◌∷◌, arith, true, false, none, some}
use boss.Prelude.{Inserted}
use boss.Timer.{Event, event, ticks, set_alarm, cancel_alarm}
use boss.Timer.Due.{times, due, after, IsReady, ticks-due}
use boss.Timer.Insert.{set_alarm-Inserted}
use boss.Timer.Cancel.{view, without, cancel_alarm-without}

-- Alarms at 3, 3 and 8 ticks.
abbrev pending : List Event
pending = event 3 1 ∷ event 0 2 ∷ event 5 3 ∷ []

set_alarm_between :
    set_alarm true 20 9 pending ≡ some (event 3 1 ∷ event 0 2 ∷ event 2 9 ∷ event 3 3 ∷ [])
unfolding set_alarm
set_alarm_between = refl

ticks-due_example :
    ((ticks 4 pending).0 ≡ due 4 ((3, 1) ∷ (3, 2) ∷ (8, 3) ∷ []))
    × (times 0 (ticks 4 pending).1 ≡ after 4 ((3, 1) ∷ (3, 2) ∷ (8, 3) ∷ []))
ticks-due_example = ticks-due 4 pending (omega arith)

set_alarm-Inserted_example :
    (es' : List Event) × (set_alarm true 20 9 pending ≡ some es')
    × Inserted (5, 9) (times 0 pending) (times 0 es')
    × IsReady es'
    × (set_alarm false 20 9 pending ≡ none)
set_alarm-Inserted_example = set_alarm-Inserted 20 9 pending (omega arith) (omega arith)

cancel_alarm-without_example :
    view (cancel_alarm 1 (event 2 3 ∷ pending)) ≡ some (without 1 (times 0 (event 2 3 ∷ pending)))
cancel_alarm-without_example = cancel_alarm-without 1 (event 2 3) pending
