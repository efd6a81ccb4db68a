-- ===== src/Fat/Table.antt =====
-- The entries of a FAT12 table, as src/fsfat.c reads them.
use boss.Prelude.{ℕ, ◌+◌, ◌*◌, ◌/◌, ◌%◌, ◌^◌, ◌≤◌, ◌<◌, ◌≡◌, update, arith}
use boss.Fat.{FatFs, fat12, u16_at, read_fat}

-- The entry of a cluster is 12 bits of the two bytes from this one on.
abbrev pub entry_byte : ℕ → ℕ
entry_byte addr = addr + addr / 2

-- The table with two bytes of an entry changed.
abbrev pub patched : (ℕ → ℕ) → ℕ → ℕ → ℕ → ℕ → ℕ
patched fat addr v w = update (update fat (entry_byte addr) v) (entry_byte addr + 1) w

patched-elsewhere :
    (fat : ℕ → ℕ) (addr v w i : ℕ) → entry_byte addr + 1 < i → patched fat addr v w i ≡ fat i
patched-elsewhere fat addr v w i h = ground arith

-- On a FAT12 volume `read_fat` does not depend on the two bytes that hold the entry: whatever they
-- are, it gives the same for every cluster from 2 on.
pub read_fat-patched :
    (fs : FatFs) (addr v w : ℕ)
    → fs.type ≡ fat12
    → 2 ≤ addr
    → addr < 2 ^ 31
    → read_fat (record fs { fat = patched fs.fat addr v w }) addr ≡ read_fat fs addr
unfolding read_fat u16_at
read_fat-patched fs addr v w e h k =
    let byte : ℕ = (addr + addr / 2) % 2 ^ 32 * 2 in
    let low = patched-elsewhere fs.fat addr v w byte (omega arith) in
    let high = patched-elsewhere fs.fat addr v w (byte + 1) (omega arith) in rw (e, low, high)
