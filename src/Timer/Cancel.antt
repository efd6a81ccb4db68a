-- ===== src/Timer/Cancel.antt =====
-- `cancel_alarm` of src/timer.c against absolute times.
use boss.Prelude.{ℕ, ◌+◌, ◌≡◌, refl, List, [], ◌∷◌, ◌==◌, if◌then◌else◌, arith, Option, some, none}
use boss.Timer.{Event, live, freed, EvList, put_off, cancel_behind, cancel_alarm}
use boss.Timer.Due.{times}

-- The first alarm of `func`, taken out.
pub without : ℕ → List (ℕ × ℕ) → List (ℕ × ℕ)
without func [] = []
without func ((t, f) ∷ ts) = if f == func then ts else (t, f) ∷ without func ts

times-put_off : (b d : ℕ) (es : List Event) → times b (put_off d es) ≡ times (b + d) es
times-put_off b d [] = refl
times-put_off b d (e ∷ es) = let p : b + (e.dt + d) ≡ b + d + e.dt = omega arith in rw p

cancel_behind-without :
    (func b : ℕ) (es : List Event) → times b (cancel_behind func es) ≡ without func (times b es)
unfolding cancel_behind without
cancel_behind-without func b [] = refl
cancel_behind-without func b (e ∷ es) =
    ground (arith, cancel_behind-without func (b + e.dt) es, times-put_off b e.dt es)

-- The absolute times that the global list stands for; `none` where it points at a freed event.
abbrev pub view : EvList → Option (List (ℕ × ℕ))
view (live es) = some (times 0 es)
view freed = none

-- Cancelling takes out the first alarm of the function and leaves every other alarm at its
-- absolute time, where that alarm is not the next one to fire. Where it is the next to fire, the
-- global list is left at the event that has just been freed.
pub cancel_alarm-without :
    (func : ℕ) (e : Event) (es : List Event)
    → view (cancel_alarm func (e ∷ es))
      ≡ (if e.func == func then none else some (without func (times 0 (e ∷ es))))
unfolding cancel_alarm without
cancel_alarm-without func e es = ground (arith, cancel_behind-without func (0 + e.dt) es)
