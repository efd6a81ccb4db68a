-- ===== src/Memfile/Tests.antt =====
-- Files of src/fsmem.c on concrete bytes, and the theorem at such an input.
use boss.Prelude.{◌≡◌, refl, ℕ, Option, some, none, [], ◌∷◌, arith, pos, ◌⊎◌, ◌<◌, ◌+◌}
use boss.Memfile.{OpenFile, file_node, read, read_file, bytes_from, write, failed}
use boss.Memfile.RoundTrip.{Stored, write-Stored}

-- The bytes 10 to 13, at the third of them.
abbrev opened : OpenFile
opened = record { file = record { data_at = λ i. i + 10; size = 4; max_size = 5 }; cur_pos = 2 }

read_rest :
    read (pos 9) (file_node opened)
    ≡ some (pos 2, 12 ∷ 13 ∷ [], file_node (record opened { cur_pos = 4 }))
unfolding read read_file bytes_from
read_rest = refl

-- A position past the end makes the count to copy negative.
read_past_end : read (pos 9) (file_node (record opened { cur_pos = 5 })) ≡ none
unfolding read read_file
read_past_end = refl

-- The result of a `realloc` that succeeds.
abbrev moved : Option (ℕ → ℕ)
moved = some (λ i. i + 10)

write-Stored_example :
    ((5 < 6)
      × ((moved ≡ none)
          × (write (1 ∷ 2 ∷ 3 ∷ 4 ∷ []) moved (file_node opened) ≡ (failed, file_node opened))))
    ⊎ ((g : OpenFile) × (write (1 ∷ 2 ∷ 3 ∷ 4 ∷ []) moved (file_node opened) ≡ (pos 4, file_node g))
        × Stored (1 ∷ 2 ∷ 3 ∷ 4 ∷ []) opened g)
write-Stored_example =
    write-Stored (1 ∷ 2 ∷ 3 ∷ 4 ∷ []) moved opened (omega arith, omega arith) (λ i h. refl)
