-- ===== src/Converse/Text/Runs.antt =====
-- Runs of the text functions.
use cs.Prelude.{ℕ, ◌≡◌, refl, some, List, [], ◌∷◌, ◌++◌, min, replicate}
use cs.Converse.Text.{space, find_first_not_of, find_last_not_of, trimmed}
use cs.Converse.Text.Trim.{trimmed-spaces}

abbrev ab : List ℕ
ab = b'a' ∷ b'b' ∷ []

trimmed-spaces_example :
    trimmed (replicate 1 space ++ (ab ++ replicate 3 space))
    ≡ some (ab ++ replicate (min 1 3) space)
unfolding find_first_not_of find_last_not_of
trimmed-spaces_example = trimmed-spaces 1 3 ab refl (1, refl, refl)
