-- ===== src/Mousedb/Wal/Order.antt =====
-- The recovery replays what was logged, in the order in which it was logged.
use cs.Prelude.{
  ℕ, zero, suc, ◌+◌, ◌^◌, ◌<◌, ◌≤◌, ◌≡◌, ◌≢◌, refl, sym, ap, ap₂, ◌∙◌, ◌==◌, ltb, if◌then◌else◌,
  true, false, Bool-cases, ◌⊎◌, inl, inr, Option, none, some, List, [], ◌∷◌, ◌++◌, length, arith,
}
use cs.Mousedb.Wal.{
  WalState, fread_word, read_type, read_entry, with_wal, open_wals, pick, pick_best, Replayed,
  reinsert, reerase, Recovery, recovered, then_replay, apply, resume, replay_best, replay,
  bytes_left, recover_opened, recover, out_of_fuel,
}
use cs.Mousedb.Wal.Entries.{record_of, Fits, wal_of, read_entry-record_of}
use cs.Mousedb.Wal.Progress.{recover_ends}
use native.Mathlib.Decide.{ℕ_discrete}
use mathlib.Core.List.{append_assoc, append-nil}
use mathlib.Core.Path.{subst}

-- Operations in the order of their ids, each with the shard that it is logged in.
abbrev pub Logged : Type 0
Logged = List (ℕ × Replayed)

abbrev pub AllFit : Logged → Type 0
AllFit [] = Unit {0}
AllFit (e ∷ log) = Fits e.1 × AllFit log

abbrev pub AllIn : ℕ → Logged → Type 0
AllIn shards [] = Unit {0}
AllIn shards (e ∷ log) = (e.0 < shards) × AllIn shards log

unfoldable pub operations : Logged → List Replayed
operations [] = []
operations (e ∷ log) = e.1 ∷ operations log

-- The file of a shard, where ids are given out from `oid` on.
unfoldable pub shard_bytes : ℕ → ℕ → Logged → List ℕ
shard_bytes shard oid [] = []
shard_bytes shard oid (e ∷ log) =
    let rest = shard_bytes shard (suc oid) log in
    if e.0 == shard then record_of oid e.1 ++ rest else rest

-- The files of the shards from `shard` on.
unfoldable pub files_of : ℕ → ℕ → ℕ → Logged → List (List ℕ)
files_of zero shard oid log = []
files_of (suc shards) shard oid log =
    shard_bytes shard oid log ∷ files_of shards (suc shard) oid log

-- What the recovery has read of them.
wal_at : ℕ → ℕ → Logged → Option WalState
wal_at shard oid [] = none
wal_at shard oid (e ∷ log) =
    let rest = wal_at shard (suc oid) log in
    if e.0 == shard then some (wal_of oid e.1 (shard_bytes shard (suc oid) log)) else rest

wals_of : ℕ → ℕ → ℕ → Logged → List WalState
wals_of zero shard oid log = []
wals_of (suc shards) shard oid log =
    with_wal (wal_at shard oid log) (wals_of shards (suc shard) oid log)

read_entry-wal_at :
    (shard oid : ℕ) (log : Logged) (old_key old_value : List ℕ)
    → oid + length log < 2 ^ 64
    → AllFit log
    → read_entry old_key old_value (shard_bytes shard oid log) ≡ some (wal_at shard oid log)
unfolding shard_bytes wal_at
read_entry-wal_at shard oid [] old_key old_value h f =
    unfold read_entry read_type fread_word in refl
read_entry-wal_at shard oid (e ∷ log) old_key old_value h (fe, f) =
    elim (Bool-cases (e.0 == shard)) [
      | inl here ↦ rw here (
          read_entry-record_of oid e.1 old_key old_value (shard_bytes shard (suc oid) log)
            (omega arith) fe)
      | inr there ↦
          rw there (read_entry-wal_at shard (suc oid) log old_key old_value (omega arith) f)
    ]

open_wals-wals_of :
    (shards shard oid : ℕ) (log : Logged)
    → oid + length log < 2 ^ 64
    → AllFit log
    → open_wals (files_of shards shard oid log) ≡ some (wals_of shards shard oid log)
unfolding open_wals files_of wals_of
open_wals-wals_of zero shard oid log h f = refl
open_wals-wals_of (suc shards) shard oid log h f =
    rw (read_entry-wal_at shard oid log [] [] h f, open_wals-wals_of shards (suc shard) oid log h f)
      refl

-- Entries with greater ids than `oid`.
abbrev Above : ℕ → List WalState → Type 0
Above oid [] = Unit {0}
Above oid (w ∷ wals) = (oid < w.oid) × Above oid wals

pick-settled :
    (before : List WalState) (best : WalState) (passed wals : List WalState)
    → Above best.oid wals
    → pick before best passed wals ≡ (before, best, passed ++ wals)
unfolding pick
pick-settled before best passed [] a = rw append-nil refl
pick-settled before best passed (w ∷ wals) (o, a) =
    let larger : ltb w.oid best.oid ≡ false = ground arith in
    rw larger (
      pick-settled before best (passed ++ (w ∷ [])) wals a
      ∙ ap (λ (k : List WalState). (before, best, k)) (append_assoc passed (w ∷ []) wals))

pick-finds :
    (before : List WalState) (x : WalState) (passed front : List WalState) (w : WalState)
    (after : List WalState)
    → w.oid < x.oid
    → Above w.oid front
    → Above w.oid after
    → pick before x passed (front ++ (w ∷ after)) ≡ (before ++ (x ∷ (passed ++ front)), w, after)
unfolding pick
pick-finds before x passed [] w after o f a =
    let smaller : ltb w.oid x.oid ≡ true = ground arith in
    rw smaller (
      pick-settled (before ++ (x ∷ passed)) w [] after a
      ∙ ap (λ (k : List WalState). (before ++ (x ∷ k), w, after)) (sym (append-nil passed)))
pick-finds before x passed (y ∷ front) w after o (oy, f) a = elim (Bool-cases (ltb y.oid x.oid)) [
  | inl smaller ↦ rw smaller (
      pick-finds (before ++ (x ∷ passed)) y [] front w after oy f a
      ∙ ap (λ (k : List WalState). (k, w, after)) (append_assoc before (x ∷ passed) (y ∷ front)))
  | inr larger ↦ rw larger (
      pick-finds before x (passed ++ (y ∷ [])) front w after o f a
      ∙ ap (λ (k : List WalState). (before ++ (x ∷ k), w, after))
          (append_assoc passed (y ∷ []) front))
]

pick_best-finds :
    (front : List WalState) (w : WalState) (after : List WalState)
    → Above w.oid front
    → Above w.oid after
    → pick_best (front ++ (w ∷ after)) ≡ some (front, w, after)
unfolding pick_best
pick_best-finds [] w after f a = ap some (pick-settled [] w [] after a)
pick_best-finds (x ∷ front) w after (o, f) a = ap some (pick-finds [] x [] front w after o f a)

Above-wal :
    (low : ℕ) (w : Option WalState) (wals : List WalState)
    → ((v : WalState) → w ≡ some v → low < v.oid)
    → Above low wals
    → Above low (with_wal w wals)
unfolding with_wal
Above-wal low none wals h a = a
Above-wal low (some w) wals h a = (h w refl, a)

wal_of-oid : (oid : ℕ) (op : Replayed) (rest : List ℕ) → (wal_of oid op rest).oid ≡ oid
unfolding wal_of
wal_of-oid oid (reinsert key value) rest = refl
wal_of-oid oid (reerase key) rest = refl

wal_at-oid :
    (shard oid : ℕ) (log : Logged) (w : WalState) → wal_at shard oid log ≡ some w → oid ≤ w.oid
unfolding wal_at
wal_at-oid shard oid [] w e = absurd (cc)
wal_at-oid shard oid (x ∷ log) w e = elim (Bool-cases (x.0 == shard)) [
  | inl here ↦
      let same : wal_of oid x.1 (shard_bytes shard (suc oid) log) ≡ w = ground arith in
      omega (
        arith,
        wal_of-oid oid x.1 (shard_bytes shard (suc oid) log),
        ap (λ (v : WalState). v.oid) same,
      )
  | inr there ↦ omega (arith, wal_at-oid shard (suc oid) log w (ground arith))
]

Above-wals_of :
    (low shards shard oid : ℕ) (log : Logged) → low < oid → Above low (wals_of shards shard oid log)
unfolding wals_of
Above-wals_of low zero shard oid log h = tt
Above-wals_of low (suc shards) shard oid log h =
    Above-wal low (wal_at shard oid log) (wals_of shards (suc shard) oid log)
      (λ v. λ e. omega (arith, wal_at-oid shard oid log v e))
      (Above-wals_of low shards (suc shard) oid log h)

wal_at-own :
    (oid : ℕ) (e : ℕ × Replayed) (log : Logged) (shard : ℕ)
    → e.0 ≡ shard
    → wal_at shard oid (e ∷ log) ≡ some (wal_of oid e.1 (shard_bytes e.0 (suc oid) log))
unfolding wal_at
wal_at-own oid e log shard here =
    let same : (e.0 == shard) ≡ true = ground arith in
    rw same (ap (λ (k : ℕ). some (wal_of oid e.1 (shard_bytes k (suc oid) log))) (sym here))

wal_at-other :
    (shard oid : ℕ) (e : ℕ × Replayed) (log : Logged)
    → e.0 ≢ shard
    → wal_at shard oid (e ∷ log) ≡ wal_at shard (suc oid) log
unfolding wal_at
wal_at-other shard oid e log n = ground arith

wals_of-other :
    (shards shard oid : ℕ) (e : ℕ × Replayed) (log : Logged)
    → e.0 < shard
    → wals_of shards shard oid (e ∷ log) ≡ wals_of shards shard (suc oid) log
unfolding wals_of
wals_of-other zero shard oid e log h = refl
wals_of-other (suc shards) shard oid e log h =
    ap₂ with_wal (wal_at-other shard oid e log (λ same. absurd (omega arith)))
      (wals_of-other shards (suc shard) oid e log (omega arith))

with_wal-append :
    (w : Option WalState) (xs ys : List WalState) → with_wal w (xs ++ ys) ≡ with_wal w xs ++ ys
unfolding with_wal
with_wal-append none xs ys = refl
with_wal-append (some w) xs ys = refl

-- The log of the first operation stands between others whose ids are greater.
abbrev Split : ℕ → ℕ → ℕ → (ℕ × Replayed) → Logged → Type 0
Split shards shard oid e log =
    (front : List WalState) × (after : List WalState) × (wals_of shards shard oid (e ∷ log)
      ≡ front ++ (wal_of oid e.1 (shard_bytes e.0 (suc oid) log) ∷ after))
    × (wals_of shards shard (suc oid) log ≡ front ++ with_wal (wal_at e.0 (suc oid) log) after)
    × Above oid front
    × Above oid after

wals_of-Split :
    (shards shard oid : ℕ) (e : ℕ × Replayed) (log : Logged)
    → shard ≤ e.0
    → e.0 < shard + shards
    → Split shards shard oid e log
unfolding wals_of with_wal
wals_of-Split zero shard oid e log l u = absurd (omega arith)
wals_of-Split (suc shards) shard oid e log l u = elim (ℕ_discrete e.0 shard) [
  | yes here ↦ (
    [],
    wals_of shards (suc shard) (suc oid) log,
    ap₂ with_wal (wal_at-own oid e log shard here)
        (wals_of-other shards (suc shard) oid e log (omega arith)),
    ap (λ (k : ℕ). with_wal (wal_at k (suc oid) log) (wals_of shards (suc shard) (suc oid) log))
        (sym here),
    tt,
    Above-wals_of oid shards (suc shard) (suc oid) log (omega arith),
  )
  | no there ↦
      let (front, after, now, next, f, a) =
        wals_of-Split shards (suc shard) oid e log (below there) (omega arith) in
      let w = wal_at shard (suc oid) log in
      (
        with_wal w front,
        after,
        ap₂ with_wal (wal_at-other shard oid e log there) now ∙ with_wal-append w front _,
        ap (with_wal w) next ∙ with_wal-append w front _,
        Above-wal oid w front (λ v. λ p. omega (arith, wal_at-oid shard (suc oid) log v p)) f,
        a,
      )
]
  where
    below : e.0 ≢ shard → suc shard ≤ e.0
    below n = omega (arith, n)

apply-wal_of :
    (oid : ℕ) (op : Replayed) (rest : List ℕ) (later : Recovery)
    → apply (wal_of oid op rest) later ≡ then_replay op later
unfolding apply wal_of
apply-wal_of oid (reinsert key value) rest later = refl
apply-wal_of oid (reerase key) rest later = refl

wal_of-rest : (oid : ℕ) (op : Replayed) (rest : List ℕ) → (wal_of oid op rest).rest ≡ rest
unfolding wal_of
wal_of-rest oid (reinsert key value) rest = refl
wal_of-rest oid (reerase key) rest = refl

abbrev Fine : List Replayed → Recovery → Type 0
Fine ops r = (r ≡ out_of_fuel) ⊎ (r ≡ recovered ops)

then_replay-Fine :
    (op : Replayed) (ops : List Replayed) (r : Recovery)
    → Fine ops r
    → Fine (op ∷ ops) (then_replay op r)
then_replay-Fine op ops r (inl e) = inl (rw e refl)
then_replay-Fine op ops r (inr e) = inr (rw e refl)

-- One round replays the first operation and goes on with the others.
module _ (fuel shards oid : ℕ) (e : ℕ × Replayed) (log : Logged) (inside : e.0 < shards)
    (small : oid + suc (length log) < 2 ^ 64) (fits : AllFit log) where
  replay-first :
      replay (suc fuel) (wals_of shards 0 oid (e ∷ log))
      ≡ then_replay e.1 (replay fuel (wals_of shards 0 (suc oid) log))
  unfolding replay replay_best resume
  replay-first =
      let (front, after, now, next, f, a) =
        wals_of-Split shards 0 oid e log (omega arith) (omega arith) in
      let rest = shard_bytes e.0 (suc oid) log in
      let w = wal_of oid e.1 rest in
      let id = wal_of-oid oid e.1 rest in
      let read : read_entry w.key w.value w.rest ≡ some (wal_at e.0 (suc oid) log) =
        ap (read_entry w.key w.value) (wal_of-rest oid e.1 rest)
        ∙ read_entry-wal_at e.0 (suc oid) log w.key w.value (omega arith) fits in
      rw
        (
          now,
          pick_best-finds front w after (subst (λ (k : ℕ). Above k front) (sym id) f)
              (subst (λ (k : ℕ). Above k after) (sym id) a),
        )
        (apply-wal_of oid e.1 rest
            (resume (replay fuel) front after (read_entry w.key w.value w.rest))
          ∙ ap (then_replay e.1) (rw read (ap (replay fuel) (sym next))))

no_wals : (shards shard oid : ℕ) → wals_of shards shard oid [] ≡ []
unfolding wals_of wal_at with_wal
no_wals zero shard oid = refl
no_wals (suc shards) shard oid = no_wals shards (suc shard) oid

replay-Fine :
    (fuel shards oid : ℕ) (log : Logged)
    → AllIn shards log
    → oid + length log < 2 ^ 64
    → AllFit log
    → Fine (operations log) (replay fuel (wals_of shards 0 oid log))
unfolding operations
replay-Fine zero shards oid log i h f = inl (unfold replay in refl)
replay-Fine (suc fuel) shards oid [] i h f =
    inr (rw (no_wals shards 0 oid) (unfold replay replay_best pick_best in refl))
replay-Fine (suc fuel) shards oid (e ∷ log) (i, is) h (fe, f) =
    subst (Fine (e.1 ∷ operations log)) (sym (replay-first fuel shards oid e log i h f)) (
      then_replay-Fine e.1 (operations log) (replay fuel (wals_of shards 0 (suc oid) log))
        (replay-Fine fuel shards (suc oid) log is (omega arith) f))

-- However the operations are spread over the shards, the recovery replays all of them in the
-- order of their ids, which is the order in which they were logged.
pub recover-operations :
    (shards oid : ℕ) (log : Logged)
    → AllIn shards log
    → oid + length log < 2 ^ 64
    → AllFit log
    → recover (files_of shards 0 oid log) ≡ recovered (operations log)
unfolding recover
recover-operations shards oid log i h f =
    let opened = open_wals-wals_of shards 0 oid log h f in
    let wals = wals_of shards 0 oid log in
    elim (replay-Fine (1 + bytes_left wals) shards oid log i h f) [
      | inl endless ↦ absurd (
          recover_ends (files_of shards 0 oid log)
            (unfold recover in rw opened (unfold recover_opened in endless)))
      | inr fine ↦ rw opened (unfold recover_opened in fine)
    ]
