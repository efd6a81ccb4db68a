-- ===== src/Timer/Insert.antt =====
-- `set_alarm` of src/timer.c against absolute times.
use boss.Prelude.{
  ℕ, ◌+◌, ◌-◌, ◌≤◌, ◌<◌, ◌≡◌, refl, true, none, some, List, [], ◌∷◌, Bool-cases, inl, inr, ltb,
  arith, ◌==◌, false,
}
use boss.Prelude.{Inserted, here, there}
use boss.Timer.{Event, msec_to_ticks, bring_forward, insert_behind, insert_event, set_alarm}
use boss.Timer.Due.{times, IsReady}

times-bring_forward :
    (b d : ℕ) (e : Event) (es : List Event)
    → d ≤ e.dt
    → times (b + d) (bring_forward d (e ∷ es)) ≡ times b (e ∷ es)
times-bring_forward b d e es h = let p : b + d + (e.dt - d) ≡ b + e.dt = omega arith in rw p

insert_behind-Inserted :
    (func ticks tsum : ℕ) (es : List Event)
    → tsum ≤ ticks
    → Inserted (ticks, func) (times tsum es) (times tsum (insert_behind func ticks tsum es))
unfolding insert_behind
insert_behind-Inserted func ticks tsum [] h =
    let p : tsum + (ticks - tsum) ≡ ticks = omega arith in rw p here
insert_behind-Inserted func ticks tsum (e ∷ es) h = elim (Bool-cases (ltb (tsum + e.dt) ticks)) [
  | inl p ↦ rw p (there (insert_behind-Inserted func ticks (tsum + e.dt) es (ground arith)))
  | inr p ↦
      let q : tsum + (ticks - tsum) ≡ ticks = omega arith in
      let r : tsum + e.dt ≡ ticks + (e.dt - (ticks - tsum)) = ground arith in rw (p, q, r) here
]

insert_event-Inserted :
    (func ticks : ℕ) (es : List Event)
    → Inserted (ticks, func) (times 0 es) (times 0 (insert_event func ticks es))
unfolding insert_event
insert_event-Inserted func ticks [] = let p : 0 + ticks ≡ ticks = omega arith in rw p here
insert_event-Inserted func ticks (e ∷ es) = elim (Bool-cases (ltb ticks e.dt)) [
  | inl p ↦
      let q : 0 + ticks ≡ ticks = omega arith in
      let r : 0 + e.dt ≡ ticks + (e.dt - ticks) = ground arith in rw (p, q, r) here
  | inr p ↦
      let q : 0 + e.dt ≡ e.dt = omega arith in
      rw (p, q) (there (insert_behind-Inserted func ticks e.dt es (ground arith)))
]

insert_event-IsReady :
    (func ticks : ℕ) (es : List Event)
    → 0 < ticks
    → IsReady es
    → IsReady (insert_event func ticks es)
unfolding insert_event
insert_event-IsReady func ticks [] h ready = h
insert_event-IsReady func ticks (e ∷ es) h ready = ground arith

nonzero : (n : ℕ) → 0 < n → (n == 0) ≡ false
nonzero n h = ground arith

-- An alarm at least one tick ahead, for which there is memory, is put among the others at its own
-- absolute time, the alarms already set keep their absolute times and their order, and no event at the
-- head is overdue. Without memory `set_alarm` panics.
pub set_alarm-Inserted :
    (msec func : ℕ) (es : List Event)
    → 0 < msec_to_ticks msec
    → IsReady es
    → (es' : List Event) × (set_alarm true msec func es ≡ some es')
      × Inserted (msec_to_ticks msec, func) (times 0 es) (times 0 es')
      × IsReady es'
      × (set_alarm false msec func es ≡ none)
unfolding set_alarm
set_alarm-Inserted msec func es h ready =
    let p = nonzero (msec_to_ticks msec) h in
    (
      insert_event func (msec_to_ticks msec) es,
      rw p refl,
      insert_event-Inserted func (msec_to_ticks msec) es,
      insert_event-IsReady func (msec_to_ticks msec) es h ready,
      rw p refl,
    )
