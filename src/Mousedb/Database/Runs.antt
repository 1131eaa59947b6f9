-- ===== src/Mousedb/Database/Runs.antt =====
-- Runs of the database.
use cs.Prelude.{ℕ, ◌≡◌, Option, none, some, List, [], ◌∷◌, ◌++◌, length, replicate, arith}
use cs.Mousedb.Hlc.{Hlc}
use cs.Prelude.Bytes.{le_bytes}
use cs.Mousedb.Wal.{Replayed, recovered, recover}
use cs.Mousedb.Database.{
  close, internal_find, start_work, finish_work, reapply, clock_bytes, stamped, flush_recovered,
}
use cs.Mousedb.Database.Contents.{Write, Step, inserts, erases, starts, run, writes_of}
use cs.Mousedb.Database.Latest.{AllInWidth, Right, empty_database, internal_find-LastWrite}
use cs.Mousedb.Database.Logs.{logs_of, recover-LastWrite}
use cs.Mousedb.Database.Forgets.{insertions, finish_work_forgets}

abbrev key_k : List ℕ
key_k = 107 ∷ []

abbrev at_time : ℕ → Hlc
at_time us = record { physical_us = us; logical = 0; node_id = 1 }

abbrev write_k : ℕ → ℕ → Write
write_k us byte = record { key = key_k; value = byte ∷ []; clock = at_time us }

-- The last write arrives before an older erasure.
abbrev four_steps : List Step
four_steps =
    inserts 0 (write_k 5 1) ∷ inserts 1 (write_k 9 2) ∷ starts ∷ erases 1 key_k (at_time 7) ∷ []

within_widths : AllInWidth (writes_of four_steps)
unfolding writes_of
within_widths = (
  (omega arith, omega arith, omega arith),
  ((omega arith, omega arith, omega arith), ((omega arith, omega arith, omega arith), tt)),
)

internal_find-LastWrite_example :
    (answer : Option (List ℕ)) × (internal_find key_k
        (run four_steps (empty_database 1 ([] ∷ [] ∷ [])))
      ≡ some answer)
    × Right key_k (writes_of four_steps) answer
internal_find-LastWrite_example =
    internal_find-LastWrite 1 ([] ∷ [] ∷ []) four_steps key_k within_widths

abbrev one_more : List Step
one_more = starts ∷ inserts 0 (write_k 8 3) ∷ []

recover-LastWrite_example :
    (ops : List Replayed) × (answer : Option (List ℕ)) × (recover
        (close (run four_steps (empty_database 1 (replicate 2 []))))
      ≡ recovered ops)
    × (internal_find key_k
          (run one_more (flush_recovered (λ m. length m) (reapply ops (empty_database 2 []))))
        ≡ some answer)
    × Right key_k (writes_of four_steps ++ writes_of one_more) answer
unfolding logs_of writes_of stamped clock_bytes le_bytes
recover-LastWrite_example =
    recover-LastWrite 1 2 2 (λ m. length m) [] four_steps one_more key_k
      (omega arith, (omega arith, (tt, (omega arith, tt)))) (omega arith)
      ((omega arith, omega arith), ((omega arith, omega arith), ((omega arith, omega arith), tt)))
      (
        (omega arith, omega arith, omega arith),
        (
          (omega arith, omega arith, omega arith),
          ((omega arith, omega arith, omega arith), ((omega arith, omega arith, omega arith), tt)),
        ),
      )

finish_work_forgets_example :
    internal_find key_k (
      finish_work 0 (
        start_work (
          run
            (insertions ((0, write_k 5 1) ∷ (1, write_k 6 2) ∷ []))
            (empty_database 1 ([] ∷ [] ∷ [])))))
    ≡ some none
finish_work_forgets_example =
    finish_work_forgets 0 (write_k 5 1) ((1, write_k 6 2) ∷ []) ([] ∷ [] ∷ []) key_k
