-- ===== src/Timer.antt =====
-- src/timer.c: the alarms that hang off the timer interrupt. An event holds its delay relative to
-- the event before it. Callbacks are only named here: what one does when it is called is outside
-- the file, and the model takes it to leave the event list alone.
pub mod Due
pub mod Insert
pub mod Cancel
mod Tests
use boss.Prelude.{
  ℕ, zero, suc, ◌+◌, ◌-◌, ◌*◌, ◌/◌, ◌%◌, ◌^◌, Bool, Option, none, some, List, [], ◌∷◌, ◌++◌, ltb,
  ◌==◌, if◌then◌else◌,
}

-- `struct timer_event`; the links are the list.
pub record Event : Type 0 where
  pub dt : ℕ
  pub func : ℕ

abbrev pub event : ℕ → ℕ → Event
event d f = record { dt = d; func = f }

-- `MSEC_TO_TICKS` in 32 bits, at 250 ticks a second.
abbrev pub msec_to_ticks : ℕ → ℕ
msec_to_ticks msec = msec * 250 % 2 ^ 32 / 1000

-- `ev->next->dt -= delta`, where there is a next event.
abbrev pub bring_forward : ℕ → List Event → List Event
bring_forward delta [] = []
bring_forward delta (e ∷ es) = event (e.dt - delta) e.func ∷ es

-- The walk of `set_alarm` from a node whose delays add up to `tsum`: what then follows that node.
pub insert_behind : ℕ → ℕ → ℕ → List Event → List Event
insert_behind func ticks tsum [] = event (ticks - tsum) func ∷ []
insert_behind func ticks tsum (e ∷ es) =
    let rest = insert_behind func ticks (tsum + e.dt) es in
    if ltb (tsum + e.dt) ticks
    then e ∷ rest
    else event (ticks - tsum) func ∷ bring_forward (ticks - tsum) (e ∷ es)

pub insert_event : ℕ → ℕ → List Event → List Event
unfolding insert_behind
insert_event func ticks [] = event ticks func ∷ []
insert_event func ticks (e ∷ es) =
    if ltb ticks e.dt
    then event ticks func ∷ bring_forward ticks (e ∷ es)
    else e ∷ insert_behind func ticks e.dt es

-- `set_alarm`; `room` is whether `malloc` gives the event, and `none` the call of `panic`.
pub set_alarm : Bool → ℕ → ℕ → List Event → Option (List Event)
unfolding insert_event
set_alarm room msec func evlist =
    let ticks = msec_to_ticks msec in
    if ticks == 0 then some evlist else if room then some (insert_event func ticks evlist) else none

-- The loop of `timer_handler`: the functions called, in order, and the events left.
pub expire : List Event → List ℕ × List Event
expire [] = ([], [])
expire (e ∷ es) =
    let (fired, left) = expire es in if e.dt == 0 then (e.func ∷ fired, left) else ([], e ∷ es)

pub timer_handler : List Event → List ℕ × List Event
unfolding expire
timer_handler [] = ([], [])
timer_handler (e ∷ es) = expire (event (e.dt - 1) e.func ∷ es)

-- `n` timer interrupts.
pub ticks : ℕ → List Event → List ℕ × List Event
ticks zero evlist = ([], evlist)
ticks (suc n) evlist =
    let (fired, left) = timer_handler evlist in
    let (later, rest) = ticks n left in (fired ++ later, rest)

-- What the global `evlist` is after `cancel_alarm`: a chain of events, or the address of an event
-- that has been freed.
pub data EvList : Type 0 where
  live : List Event → EvList
  freed : EvList

-- `ev->next->dt += ev->dt`, where there is a next event.
abbrev pub put_off : ℕ → List Event → List Event
put_off delta [] = []
put_off delta (e ∷ es) = event (e.dt + delta) e.func ∷ es

-- The loop of `cancel_alarm` behind the first node.
pub cancel_behind : ℕ → List Event → List Event
cancel_behind func [] = []
cancel_behind func (e ∷ es) = if e.func == func then put_off e.dt es else e ∷ cancel_behind func es

-- The new head is written to the local `dummy.next` and not to `evlist`.
pub cancel_alarm : ℕ → List Event → EvList
unfolding cancel_behind
cancel_alarm func [] = live []
cancel_alarm func (e ∷ es) = if e.func == func then freed else live (e ∷ cancel_behind func es)
