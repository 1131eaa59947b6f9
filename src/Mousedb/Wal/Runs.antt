-- ===== src/Mousedb/Wal/Runs.antt =====
-- Runs of the recovery.
use cs.Prelude.{ℕ, ◌≡◌, ◌≢◌, refl, List, [], ◌∷◌, ◌++◌}
use cs.Mousedb.Wal.{
  insert_record, erase_record, fread_word, fread_into, read_value, read_body, read_id, read_type,
  read_entry, with_wal, open_wals, pick, pick_best, recovered, reinsert, reerase, out_of_fuel,
  apply, resume, replay_best, replay, bytes_left, recover_opened, recover,
}
use cs.Prelude.Bytes.{le_bytes, of_le_bytes}
use cs.Mousedb.Wal.Progress.{recover_ends}

-- Two logs whose operations alternate, and one that is empty.
abbrev alternating : List (List ℕ)
alternating =
    (insert_record 0 (107 ∷ []) (1 ∷ []) ++ insert_record 2 (107 ∷ []) (2 ∷ []))
    ∷ []
    ∷ erase_record 1 (107 ∷ [])
    ∷ []

alternating_in_order :
    recover alternating
    ≡ recovered
        (reinsert (107 ∷ []) (1 ∷ []) ∷ reerase (107 ∷ []) ∷ reinsert (107 ∷ []) (2 ∷ []) ∷ [])
unfolding recover recover_opened open_wals read_entry read_type fread_word insert_record read_id
    read_body read_value fread_into erase_record replay bytes_left with_wal apply pick pick_best
    replay_best resume le_bytes of_le_bytes
alternating_in_order = refl

recover_ends_example : recover alternating ≢ out_of_fuel
recover_ends_example = recover_ends alternating
