-- ===== src/Mousedb/Hlc/Advance.antt =====
-- The compare-exchange loop of `advance`.
use cs.Prelude.{
  ℕ, ◌≡◌, refl, ◌⊎◌, inl, inr, false, ◌&&◌, not, ◌==◌, Option, some, List, [], ◌∷◌, ◌++◌,
  Bool-cases, arith,
}
use cs.Mousedb.Hlc.{Hlc, Round, pack, attempt, advance}

abbrev pub OneOf : Round → List Round → Type 0
OneOf r [] = ⊥
OneOf r (s ∷ rounds) = (r ≡ s) ⊎ OneOf r rounds

abbrev pub Commits : ℕ → Option Hlc → List Round → Hlc → ℕ → Type 0
Commits node_id remote rounds h state =
    (r : Round) × OneOf r rounds
    × (r.spurious ≡ false)
    × (h ≡ attempt node_id r.current r.now remote)
    × (state ≡ pack h.physical_us h.logical)

-- What `advance` returns was computed from the very value that its successful exchange replaced:
-- one of the rounds found that value, did not fail, and stored the packed result.
pub advance-Commits :
    (node_id : ℕ) (remote : Option Hlc) (loop : ℕ) (rounds : List Round) (h : Hlc) (state : ℕ)
    → advance node_id remote loop rounds ≡ some (h, state)
    → Commits node_id remote rounds h state
unfolding advance
advance-Commits node_id remote loop [] h state e = cc
advance-Commits node_id remote loop (r ∷ rounds) h state e =
    elim (Bool-cases (r.current == loop && not r.spurious)) [
      | inl hit ↦ (r, inl refl, ground arith, ground arith, ground arith)
      | inr miss ↦
          let (s, member, fine, clock, stored) =
            advance-Commits node_id remote r.current rounds h state (ground arith) in
          (s, inr member, fine, clock, stored)
    ]

abbrev result_of : ℕ → Option Hlc → ℕ → ℕ → Hlc × ℕ
result_of node_id remote loop now =
    let h = attempt node_id loop now remote in (h, pack h.physical_us h.logical)

-- The loop ends: once a round finds the value that the round before it found, and does not fail
-- spuriously, a result has been returned, by that round or an earlier one.
pub advance_returns :
    (node_id : ℕ) (remote : Option Hlc) (loop : ℕ) (before : List Round) (r s : Round)
    (after : List Round)
    → s.current ≡ r.current
    → s.spurious ≡ false
    → (p : Hlc × ℕ) × (advance node_id remote loop (before ++ r ∷ s ∷ after) ≡ some p)
unfolding advance
advance_returns node_id remote loop [] r s after e f =
    elim (Bool-cases (r.current == loop && not r.spurious)) [
      | inl hit ↦ (result_of node_id remote loop r.now, rw hit)
      | inr miss ↦ (result_of node_id remote r.current s.now, ground arith)
    ]
advance_returns node_id remote loop (b ∷ before) r s after e f =
    elim (Bool-cases (b.current == loop && not b.spurious)) [
      | inl hit ↦ (result_of node_id remote loop b.now, rw hit)
      | inr miss ↦
          let (p, later) = advance_returns node_id remote b.current before r s after e f in
          (p, rw miss later)
    ]
