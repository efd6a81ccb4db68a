-- ===== src/Keys/Tests.antt =====
-- Keys of src/keyb.c on a concrete ring, and the theorems at such inputs.
use boss.Prelude.{◌≡◌, refl, false, Option, some, none, [], ◌∷◌, arith}
use boss.Keys.{Keyboard, kbintr, append_key, is_reboot}
use boss.Keys.Queue.{run, waiting, enqueue, IsValid, kbintr-waiting}

abbrev empty : Keyboard
empty = record {
  buffer = λ i. 0;
  buf_ridx = 62;
  buf_widx = 62;
  num_pressed = 0;
  keystate = λ i. 0;
  ext = false;
}

-- The keys a, b and c, across the end of the ring.
abbrev three : Keyboard
three = append_key b'c' (append_key b'b' (append_key b'a' empty))

order_of_reading : waiting three ≡ b'a' ∷ b'b' ∷ b'c' ∷ []
unfolding append_key run
order_of_reading = refl

-- The scan code of the key a.
abbrev after_a : Option Keyboard
after_a = kbintr 30 three

abbrev pressed : Keyboard
pressed = elim after_a [ none ↦ empty | some k ↦ k ]

kbintr-waiting_example : (waiting pressed ≡ enqueue b'a' (waiting three)) × IsValid pressed
unfolding append_key kbintr is_reboot
kbintr-waiting_example = kbintr-waiting 30 three pressed (omega arith, omega arith) refl
