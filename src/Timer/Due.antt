-- ===== src/Timer/Due.antt =====
-- When the alarms of src/timer.c fire: the handler against absolute times.
use mathlib.Core.Path.{ap₂}
use boss.Prelude.{
  ℕ, zero, suc, ◌+◌, ◌-◌, ◌<◌, ◌≡◌, refl, sym, ◌∙◌, ap, List, [], ◌∷◌, ◌++◌, leb, if◌then◌else◌,
  arith,
}
use boss.Timer.{Event, event, expire, timer_handler, ticks}

-- The absolute times of a chain of events, counted from `base`, with their functions.
abbrev pub times : ℕ → List Event → List (ℕ × ℕ)
times base [] = []
times base (e ∷ es) = (base + e.dt, e.func) ∷ times (base + e.dt) es

-- The functions that are due by time `n`.
pub due : ℕ → List (ℕ × ℕ) → List ℕ
due n [] = []
due n ((t, f) ∷ ts) = if leb t n then f ∷ due n ts else due n ts

-- The alarms that are due after time `n`, counted from there.
pub after : ℕ → List (ℕ × ℕ) → List (ℕ × ℕ)
after n [] = []
after n ((t, f) ∷ ts) = if leb t n then after n ts else (t - n, f) ∷ after n ts

-- No event at the head is overdue.
abbrev pub IsReady : List Event → Type 0
IsReady [] = Unit
IsReady (e ∷ es) = 0 < e.dt

due-times_late : (n b : ℕ) (es : List Event) → n < b → due n (times b es) ≡ []
unfolding due
due-times_late n b [] h = refl
due-times_late n b (e ∷ es) h = ground (arith, due-times_late n (b + e.dt) es)

after-times_late :
    (n b c : ℕ) (es : List Event) → n < b → b ≡ n + c → after n (times b es) ≡ times c es
unfolding after
after-times_late n b c [] h e' = refl
after-times_late n b c (e ∷ es) h e' = ground (arith, after-times_late n (b + e.dt) (c + e.dt) es)

expire-due : (b : ℕ) (es : List Event) → (expire es).0 ≡ due b (times b es)
unfolding expire due
expire-due b [] = refl
expire-due b (e ∷ es) = ground (arith, expire-due (b + e.dt) es, due-times_late b (b + e.dt) es)

expire-after : (b : ℕ) (es : List Event) → times 0 (expire es).1 ≡ after b (times b es)
unfolding expire after
expire-after b [] = refl
expire-after b (e ∷ es) =
    ground (arith, expire-after (b + e.dt) es, after-times_late b (b + e.dt) e.dt es)

expire-IsReady : (es : List Event) → IsReady (expire es).1
unfolding expire
expire-IsReady [] = tt
expire-IsReady (e ∷ es) = ground (arith, expire-IsReady es)

times-dec :
    (e : Event) (es : List Event)
    → 0 < e.dt
    → times 1 (event (e.dt - 1) e.func ∷ es) ≡ times 0 (e ∷ es)
times-dec e es h = let p : 1 + (e.dt - 1) ≡ 0 + e.dt = omega arith in rw p

handler-due : (es : List Event) → IsReady es → (timer_handler es).0 ≡ due 1 (times 0 es)
unfolding timer_handler due
handler-due [] h = refl
handler-due (e ∷ es) h = expire-due 1 (event (e.dt - 1) e.func ∷ es) ∙ ap (due 1) (times-dec e es h)

handler-after : (es : List Event) → IsReady es → times 0 (timer_handler es).1 ≡ after 1 (times 0 es)
unfolding timer_handler after
handler-after [] h = refl
handler-after (e ∷ es) h =
    expire-after 1 (event (e.dt - 1) e.func ∷ es) ∙ ap (after 1) (times-dec e es h)

handler-IsReady : (es : List Event) → IsReady (timer_handler es).1
unfolding timer_handler
handler-IsReady [] = tt
handler-IsReady (e ∷ es) = expire-IsReady (event (e.dt - 1) e.func ∷ es)

due-suc :
    (n b : ℕ) (es : List Event)
    → due (suc n) (times b es) ≡ due 1 (times b es) ++ due n (after 1 (times b es))
unfolding due after
due-suc n b [] = refl
due-suc n b (e ∷ es) = ground (arith, due-suc n (b + e.dt) es, due-times_late 1 (b + e.dt) es)

after-suc : (n : ℕ) (ts : List (ℕ × ℕ)) → after (suc n) ts ≡ after n (after 1 ts)
unfolding after
after-suc n [] = refl
after-suc n ((t, f) ∷ ts) = ground (arith, after-suc n ts)

due-zero : (b : ℕ) (es : List Event) → 0 < b → due 0 (times b es) ≡ []
due-zero b es h = due-times_late 0 b es h

after-zero : (b : ℕ) (es : List Event) → 0 < b → after 0 (times b es) ≡ times b es
after-zero b es h = after-times_late 0 b b es h (omega arith)

-- After `n` interrupts the functions called are those of the alarms due by time `n`, in the order
-- of the list and each once, and every other alarm is still to come at its own time less `n`,
-- provided that no event at the head is overdue at the start.
pub ticks-due :
    (n : ℕ) (es : List Event)
    → IsReady es
    → ((ticks n es).0 ≡ due n (times 0 es)) × (times 0 (ticks n es).1 ≡ after n (times 0 es))
unfolding ticks
ticks-due zero [] h = unfold due after in (refl, refl)
ticks-due zero (e ∷ es) h =
    unfold due after in (ground (arith, due-zero e.dt es), ground (arith, after-zero e.dt es))
ticks-due (suc n) es h =
    let (fired, left) = ticks-due n (timer_handler es).1 (handler-IsReady es) in
    (
      ap₂ ◌++◌ (handler-due es h) (fired ∙ ap (due n) (handler-after es h)) ∙ sym (due-suc n 0 es),
      left ∙ ap (after n) (handler-after es h) ∙ sym (after-suc n (times 0 es)),
    )
