-- ===== src/Keys/Queue.antt =====
-- The ring of src/keyb.c as a queue of at most 63 key presses.
use boss.Prelude.{get_or, some-injective}
use boss.Prelude.{
  ℕ, zero, suc, ◌+◌, ◌-◌, ◌<◌, ◌≤◌, ◌%◌, ◌^◌, ◌==◌, ◌≡◌, refl, sym, ◌∙◌, ap, true, false, inl, inr,
  Bool-cases, Option, none, some, List, [], ◌∷◌, ◌++◌, ltb, if◌then◌else◌, arith, length, drop,
  update,
}
use boss.Keys.{
  Keyboard, advance, kb_getkey, kb_putback, append_key, kbintr, is_reboot, scantbl_set1,
  scantbl_set1_ext,
}

-- The key of a scan code.
abbrev pub key_of : ℕ → Keyboard → ℕ
key_of code k = get_or (if k.ext then scantbl_set1_ext else scantbl_set1) (code % 128) 0

-- `n` places of the ring from `i` on.
unfoldable pub run : (ℕ → ℕ) → ℕ → ℕ → List ℕ
run buf i zero = []
run buf i (suc n) = buf i ∷ run buf (advance i) n

-- The key presses that wait, the next one to be read first.
abbrev pub waiting : Keyboard → List ℕ
waiting k = run k.buffer k.buf_ridx ((k.buf_widx + 64 - k.buf_ridx) % 64)

-- Both indices are in the ring.
abbrev pub IsValid : Keyboard → Type 0
IsValid k = (k.buf_ridx < 64) × (k.buf_widx < 64)

-- A bounded queue, which drops its oldest entry when it is full.
abbrev pub enqueue : ℕ → List ℕ → List ℕ
enqueue key q = if ltb (length q) 63 then q ++ key ∷ [] else drop 1 (q ++ key ∷ [])

-- An entry put back in front, in place of the first one where the queue is full.
abbrev pub put_front : ℕ → List ℕ → List ℕ
put_front key q = if ltb (length q) 63 then key ∷ q else key ∷ drop 1 q

abbrev pub dequeue : List ℕ → Option ℕ × List ℕ
dequeue [] = (none, [])
dequeue (key ∷ q) = (some key, q)

length-run : (buf : ℕ → ℕ) (i n : ℕ) → length (run buf i n) ≡ n
unfolding run
length-run buf i zero = refl
length-run buf i (suc n) = ap suc (length-run buf (advance i) n)

run-update :
    (buf : ℕ → ℕ) (i n w v : ℕ)
    → i < 64
    → w < 64
    → n ≤ (w + 64 - i) % 64
    → run (update buf w v) i n ≡ run buf i n
unfolding run
run-update buf i zero w v hi hw h = refl
run-update buf i (suc n) w v hi hw h = ground (arith, run-update buf (advance i) n w v)

run-snoc :
    (buf : ℕ → ℕ) (i n : ℕ) → i < 64 → run buf i (suc n) ≡ run buf i n ++ buf ((i + n) % 64) ∷ []
unfolding run
run-snoc buf i zero hi = let e : (i + 0) % 64 ≡ i = omega arith in rw e
run-snoc buf i (suc n) hi =
    let e : (advance i + n) % 64 ≡ (i + suc n) % 64 = omega arith in
    ap (λ q. buf i ∷ q) (run-snoc buf (advance i) n (omega arith) ∙ rw e)

update_self : (buf : ℕ → ℕ) (i v : ℕ) → update buf i v i ≡ v
update_self buf i v = ground arith

-- A write behind the entries, and one at the first.
run-append :
    (buf : ℕ → ℕ) (i w v n : ℕ)
    → i < 64
    → w < 64
    → (w + 64 - i) % 64 ≡ n
    → run (update buf w v) i (suc n) ≡ run buf i n ++ v ∷ []
run-append buf i w v n hi hw h =
    let place : (i + n) % 64 ≡ w = omega arith in
    run-snoc (update buf w v) i n hi
    ∙ rw (run-update buf i n w v hi hw (omega arith), place, update_self buf w v)

run-front :
    (buf : ℕ → ℕ) (i v n : ℕ)
    → i < 64
    → n ≤ 63
    → run (update buf i v) i (suc n) ≡ v ∷ run buf (advance i) n
unfolding run
run-front buf i v n hi h =
    rw (update_self buf i v, run-update buf (advance i) n i v (omega arith) hi (omega arith))

append_key-waiting :
    (key : ℕ) (k : Keyboard)
    → IsValid k
    → (waiting (append_key key k) ≡ enqueue key (waiting k)) × IsValid (append_key key k)
unfolding append_key run
append_key-waiting key k (hr, hw) =
    let n = (k.buf_widx + 64 - k.buf_ridx) % 64 in
    let behind = run-append k.buffer k.buf_ridx k.buf_widx key n hr hw refl in
    elim (Bool-cases (advance k.buf_widx == k.buf_ridx)) [
      | inl e ↦
          let full : n ≡ 63 = ground arith in
          let now : (advance k.buf_widx + 64 - advance k.buf_ridx) % 64 ≡ 63 = ground arith in
          rw (e, now, length-run, full)
            (
              ap (drop 1) (run-append k.buffer k.buf_ridx k.buf_widx key 63 hr hw full),
              (omega arith, omega arith),
            )
      | inr e ↦
          let room : ltb n 63 ≡ true = ground arith in
          let now : (advance k.buf_widx + 64 - k.buf_ridx) % 64 ≡ suc n = ground arith in
          rw (e, now, length-run, room) (behind, (hr, omega arith))
    ]

-- In a ring with both indices in range, reading a key takes the oldest one that waits, there is none
-- exactly when nothing waits, and the indices stay in range.
pub kb_getkey-waiting :
    (k : Keyboard)
    → IsValid k
    → ((kb_getkey k).0 ≡ (dequeue (waiting k)).0)
      × ((waiting (kb_getkey k).1 ≡ (dequeue (waiting k)).1) × IsValid (kb_getkey k).1)
unfolding kb_getkey run
kb_getkey-waiting k (hr, hw) = elim (Bool-cases (k.buf_ridx == k.buf_widx)) [
  | inl e ↦
      let z : (k.buf_widx + 64 - k.buf_ridx) % 64 ≡ 0 = ground arith in
      rw (e, z) (refl, (refl, (hr, hw)))
  | inr e ↦
      let s : (k.buf_widx + 64 - k.buf_ridx) % 64
          ≡ suc ((k.buf_widx + 64 - advance k.buf_ridx) % 64) =
        ground arith in
      rw (e, s) (refl, (refl, (omega arith, hw)))
]

-- In a ring with both indices in range, which they stay, a key that is put back is the next to be read. If 63 keys wait already, it takes the place of the
-- next one, and otherwise all of them stay behind it.
pub kb_putback-waiting :
    (key : ℕ) (k : Keyboard)
    → IsValid k
    → (waiting (kb_putback key k) ≡ put_front key (waiting k)) × IsValid (kb_putback key k)
unfolding kb_putback run
kb_putback-waiting key k (hr, hw) =
    let n = (k.buf_widx + 64 - k.buf_ridx) % 64 in
    let back = if k.buf_ridx == 0 then 63 else k.buf_ridx - 1 in
    let again : advance back ≡ k.buf_ridx = ground arith in
    let low : back < 64 = ground arith in
    elim (Bool-cases (back == k.buf_widx)) [
      | inl e ↦
          let full : n ≡ 63 = ground arith in
          rw (e, again, length-run, full)
            (run-front k.buffer k.buf_ridx key 62 hr (omega arith), (hr, hw))
      | inr e ↦
          let room : ltb n 63 ≡ true = ground arith in
          let now : (k.buf_widx + 64 - back) % 64 ≡ suc n = ground arith in
          let front = run-front k.buffer back key n low (omega arith) in
          rw (e, now, length-run, room) (front ∙ rw again, (low, hw))
    ]

-- In a ring with both indices in range, a press appends its key to the keys that wait, of which the oldest is dropped if 63 wait already;
-- a release and the prefix 0xe0 leave them as they are, and the indices stay in range. A press that
-- reboots the machine is left out.
pub kbintr-waiting :
    (code : ℕ) (k k' : Keyboard)
    → IsValid k
    → kbintr code k ≡ some k'
    → (waiting k' ≡ (if ltb code 128 then enqueue (key_of code k) (waiting k) else waiting k))
      × IsValid k'
unfolding kbintr
kbintr-waiting code k k' v h = elim (Bool-cases (code == 224)) [
  | inl e ↦
      let same : some (record k { ext = true }) ≡ some k' = rw e at h in
      let late : ltb code 128 ≡ false = ground arith in
      rw (late, sym (some-injective same)) (refl, v)
  | inr e ↦ elim (Bool-cases (ltb code 128)) [
    | inl p ↦
        let key = key_of code k in
        let k1 = record k { num_pressed = (k.num_pressed + 1) % 2 ^ 32; ext = false } in
        elim (Bool-cases (is_reboot key k1)) [
          | inl r ↦ let gone : none ≡ some k' = rw (e, p, r) at h in absurd cc
          | inr r ↦
              let k2 = record (append_key key k1) { keystate = update k.keystate key 1 } in
              let same : some k2 ≡ some k' = rw (e, p, r) at h in
              rw (p, sym (some-injective same)) (append_key-waiting key k1 v)
        ]
    | inr p ↦
        let fewer = if ltb 0 k.num_pressed then k.num_pressed - 1 else k.num_pressed in
        let k2 = record k {
          num_pressed = fewer;
          ext = false;
          keystate = update k.keystate (key_of code k) 0;
        } in
        let same : some k2 ≡ some k' = rw (e, p) at h in rw (p, sym (some-injective same)) (refl, v)
  ]
]
