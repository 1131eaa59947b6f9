-- ===== src/Mousedb/Wal/Progress.antt =====
-- The recovery ends.
use cs.Prelude.{
  ℕ, zero, suc, ◌+◌, ◌<◌, ◌≤◌, ◌≡◌, ◌≢◌, ap, ◌==◌, ltb, Bool-cases, Option-cases, inl, inr, false,
  Option, none, some, List, [], ◌∷◌, ◌++◌, length, length-drop, drop, arith,
}
use cs.Prelude.Options.{◌>>=◌}
use cs.Mousedb.Wal.{
  fread_word, fread_into, WalState, read_value, read_body, read_id, read_type, read_entry, with_wal,
  open_wals, pick, pick_best, Replayed, reinsert, reerase, Recovery, recovered, unknown_op,
  size_unread, out_of_fuel, then_replay, apply, resume, replay_best, replay, bytes_left,
  recover_opened, recover,
}

bytes_left-append : (xs ys : List WalState) → bytes_left (xs ++ ys) ≡ bytes_left xs + bytes_left ys
unfolding bytes_left
bytes_left-append [] ys = omega arith
bytes_left-append (x ∷ xs) ys = omega (arith, bytes_left-append xs ys)

-- Nothing is lost or added by the search.
pick-bytes_left :
    (before : List WalState) (best : WalState) (passed wals : List WalState)
    → let p = pick before best passed wals in
      bytes_left p.0 + (1 + (length p.1.rest + bytes_left p.2))
      ≡ bytes_left before + (1 + (length best.rest + (bytes_left passed + bytes_left wals)))
unfolding pick bytes_left
pick-bytes_left before best passed [] = omega arith
pick-bytes_left before best passed (w ∷ wals) = elim (Bool-cases (ltb w.oid best.oid)) [
  | inl smaller ↦ rw smaller (
      omega (
        arith,
        pick-bytes_left (before ++ (best ∷ passed)) w [] wals,
        bytes_left-append before (best ∷ passed),
      ))
  | inr larger ↦ rw larger (
      omega (
        arith,
        pick-bytes_left before best (passed ++ (w ∷ [])) wals,
        bytes_left-append passed (w ∷ []),
      ))
]

-- What a read leaves is shorter than `n` bytes.
abbrev Shorter : ℕ → Option WalState → Type 0
Shorter n none = Unit {0}
Shorter n (some w) = length w.rest < n

abbrev ShorterEntry : ℕ → Option (Option WalState) → Type 0
ShorterEntry n none = Unit {0}
ShorterEntry n (some w) = Shorter n w

fread_word-length :
    (bytes : List ℕ) (n : ℕ) (rest : List ℕ)
    → fread_word bytes ≡ some (n, rest)
    → length rest + 8 ≡ length bytes
unfolding fread_word
fread_word-length bytes n rest e = elim (Bool-cases (ltb (length bytes) 8)) [
  | inl short ↦ absurd (ground arith)
  | inr enough ↦
      let same : drop 8 bytes ≡ rest = ground arith in
      omega (ltb-false (length bytes) 8 enough, arith, length-drop 8 bytes, ap length same)
]
  where
    ltb-false : (a b : ℕ) → ltb a b ≡ false → b ≤ a
    ltb-false a b h = ground arith

read_value-Shorter :
    (ot oid : ℕ) (key old bytes : List ℕ)
    → Shorter (1 + length bytes) (read_value ot oid key old bytes)
unfolding read_value fread_into
read_value-Shorter ot oid key old bytes = elim (Bool-cases (ot == 0)) [
  | inl inserts ↦ elim (Option-cases (fread_word bytes)) [
    | inl unread ↦ rw (inserts, unread) tt
    | inr ((n, rest), read) ↦
        rw (inserts, read) (omega (arith, fread_word-length bytes n rest read, length-drop n rest))
  ]
  | inr erases ↦ rw erases (omega arith)
]

read_body-Shorter :
    (ot oid : ℕ) (key old bytes : List ℕ)
    → Shorter (1 + length bytes) (read_body ot oid key old bytes)
unfolding read_body fread_into
read_body-Shorter ot oid key old bytes = elim (Option-cases (fread_word bytes)) [
  | inl unread ↦ rw unread tt
  | inr ((n, rest), read) ↦ rw read (
      Shorter-weaken _ _ (read_value ot oid _ old (drop n rest))
        (omega (arith, fread_word-length bytes n rest read, length-drop n rest))
        (read_value-Shorter ot oid _ old (drop n rest)))
]
  where
    Shorter-weaken : (n m : ℕ) (w : Option WalState) → n ≤ m → Shorter n w → Shorter m w
    Shorter-weaken n m none h s = tt
    Shorter-weaken n m (some w) h s = omega arith

some_entry-Shorter :
    (n : ℕ) (w : Option WalState) → Shorter n w → ShorterEntry n (w >>= λ v. some (some v))
some_entry-Shorter n none s = tt
some_entry-Shorter n (some w) s = s

-- An entry that is read takes sixteen bytes at least.
read_entry-Shorter :
    (key value bytes : List ℕ) → ShorterEntry (length bytes) (read_entry key value bytes)
unfolding read_entry read_type read_id
read_entry-Shorter key value bytes = elim (Option-cases (fread_word bytes)) [
  | inl unread ↦ rw unread tt
  | inr ((ot, after), read) ↦ elim (Option-cases (fread_word after)) [
    | inl unread ↦ rw (read, unread) tt
    | inr ((oid, rest), read₂) ↦
        rw (read, read₂)
          (ShorterEntry-weaken (1 + length rest) (length bytes) _
            (omega (
              arith,
              fread_word-length bytes ot after read,
              fread_word-length after oid rest read₂,
            ))
            (some_entry-Shorter (1 + length rest) (read_body ot oid key value rest)
              (read_body-Shorter ot oid key value rest)))
  ]
]
  where
    ShorterEntry-weaken :
        (n m : ℕ) (w : Option (Option WalState)) → n ≤ m → ShorterEntry n w → ShorterEntry m w
    ShorterEntry-weaken n m none h s = tt
    ShorterEntry-weaken n m (some none) h s = tt
    ShorterEntry-weaken n m (some (some w)) h s = omega arith

abbrev Ended : Recovery → Type 0
Ended r = r ≢ out_of_fuel

then_replay-Ended : (op : Replayed) (r : Recovery) → Ended r → Ended (then_replay op r)
then_replay-Ended op (recovered ops) h = λ e. cc
then_replay-Ended op unknown_op h = h
then_replay-Ended op size_unread h = h
then_replay-Ended op out_of_fuel h = h

apply-Ended : (w : WalState) (r : Recovery) → Ended r → Ended (apply w r)
unfolding apply
apply-Ended w r h = elim (Bool-cases (w.ot == 0)) [
  | inl inserts ↦ rw inserts (then_replay-Ended (reinsert w.key w.value) r h)
  | inr other ↦ rw other (elim (Bool-cases (w.ot == 1)) [
    | inl erases ↦ rw erases (then_replay-Ended (reerase w.key) r h)
    | inr unknown ↦ rw unknown (λ e. cc)
  ])
]

module _ (fuel : ℕ) (again : List WalState → Recovery)
    (ends : (wals : List WalState) → bytes_left wals < fuel → Ended (again wals)) where
  resume-Ended :
      (before after : List WalState) (n : ℕ) (entry : Option (Option WalState))
      → ShorterEntry n entry
      → bytes_left before + (n + bytes_left after) < fuel
      → Ended (resume again before after entry)
  unfolding resume with_wal bytes_left
  resume-Ended before after n none s h = λ e. cc
  resume-Ended before after n (some none) s h =
      ends (before ++ after) (omega (arith, bytes_left-append before after))
  resume-Ended before after n (some (some w)) s h =
      ends (before ++ (w ∷ after)) (omega (arith, bytes_left-append before (w ∷ after)))

  replay_best-Ended :
      (p : List WalState × WalState × List WalState)
      → bytes_left p.0 + (length p.1.rest + bytes_left p.2) < fuel
      → Ended (replay_best again (some p))
  unfolding replay_best
  replay_best-Ended (before, best, after) h =
      apply-Ended best (resume again before after (read_entry best.key best.value best.rest)) (
        resume-Ended before after (length best.rest) (read_entry best.key best.value best.rest)
          (read_entry-Shorter best.key best.value best.rest) h)

replay-Ended : (fuel : ℕ) (wals : List WalState) → bytes_left wals < fuel → Ended (replay fuel wals)
unfolding replay pick_best
replay-Ended zero wals h = absurd (omega arith)
replay-Ended (suc fuel) [] h = unfold replay_best in λ e. cc
replay-Ended (suc fuel) (w ∷ wals) h =
    replay_best-Ended fuel (replay fuel) (replay-Ended fuel) (pick [] w [] wals)
      (unfold bytes_left in omega (arith, pick-bytes_left [] w [] wals))

-- Whatever the log files hold, the recovery ends: the rounds that it is given are enough.
pub recover_ends : (files : List (List ℕ)) → recover files ≢ out_of_fuel
unfolding recover
recover_ends files = elim (Option-cases (open_wals files)) [
  | inl unread ↦ rw unread (unfold recover_opened in λ e. cc)
  | inr (wals, opened) ↦
      rw opened (unfold recover_opened in replay-Ended (1 + bytes_left wals) wals (omega arith))
]
