-- ===== src/Tempus/Setup/Channels.antt =====
-- After the set-up, each machine is found at the index at which the logic looks for it.
use cs.Prelude.{
  ℕ, zero, suc, ◌+◌, ◌-◌, ◌^◌, ◌≤◌, ◌<◌, ◌≡◌, ◌≢◌, refl, sym, ap, ◌∙◌, ◌⊎◌, inl, inr, ltb, true,
  false, Bool-cases, some, List, [], ◌∷◌, map, length, get_elem?, replicate, length-replicate,
  arith,
}
use cs.Prelude.Members.{OneOf}
use mathlib.Core.Path.{subst}
use native.Mathlib.Decide.{ℕ_discrete}
use cs.Tempus.{calculate_channel_index}
use cs.Tempus.Setup.{
  Outcome, ready, Stage, goes, then_do, Connect, accept_all, connect_all, finish, set_up_with,
  listen_on, set_up,
}
use cs.Tempus.Setup.Sets.{arrives, AllReached, Sets, arrives-Sets, connect_from-Sets}

abbrev AllBelow : ℕ → List ℕ → Type 0
AllBelow n [] = Unit {0}
AllBelow n (r ∷ order) = (r < n) × AllBelow n order

-- The machine `t` is found where the logic of the machine `rank` looks for it.
abbrev pub Finds : (ℕ → ℕ) → ℕ → List ℕ → ℕ → Type 0
Finds socket_to rank channels t =
    get_elem? channels (calculate_channel_index rank t) ≡ some (socket_to t)

record Grown (socket_to : ℕ → ℕ) (rank : ℕ) (channels : List ℕ) (Wanted : ℕ → Type 0)
    (stage : Stage) : Type 0 where
  after : List ℕ
  went : stage ≡ goes after
  same_length : length after ≡ length channels
  finds :
      (t : ℕ) → t ≢ rank → Finds socket_to rank channels t ⊎ Wanted t → Finds socket_to rank after t

index_injective :
    (rank r t : ℕ)
    → r ≢ rank
    → t ≢ rank
    → t ≢ r
    → calculate_channel_index rank r ≢ calculate_channel_index rank t
unfolding calculate_channel_index
index_injective rank r t h k n e = elim (Bool-cases (ltb rank r)) [
  | inl above ↦ elim (Bool-cases (ltb rank t)) [
    | inl also ↦ n (ground (arith, e, above, also, h, k))
    | inr other ↦ absurd (ground (arith, e, above, other, h, k))
  ]
  | inr below ↦ absurd (ground (arith, e, below, h, k, n))
]

-- One machine more is found, at its index.
grow :
    (socket_to : ℕ → ℕ) (rank r i : ℕ) (channels : List ℕ) (Wanted : ℕ → Type 0) (stage : Stage)
    (f : List ℕ → Stage)
    → r ≢ rank
    → calculate_channel_index rank r ≡ i
    → Sets i (socket_to r) channels stage
    → ((cs : List ℕ) → length cs ≡ length channels → Grown socket_to rank cs Wanted (f cs))
    → Grown socket_to rank channels (λ t. (t ≡ r) ⊎ Wanted t) (then_do stage f)
grow socket_to rank r i channels Wanted stage f other e a next =
    let b = next a.after a.same_length in
    subst (λ (st : Stage). Grown socket_to rank channels (λ t. (t ≡ r) ⊎ Wanted t) (then_do st f))
      (sym a.went)
      (unfold then_do in
        record {
          after = b.after;
          went = b.went;
          same_length = b.same_length ∙ a.same_length;
          finds = λ t n w. b.finds t n (found t n w (ℕ_discrete t r));
        })
  where
    found :
        (t : ℕ)
        → t ≢ rank
        → Finds socket_to rank channels t ⊎ ((t ≡ r) ⊎ Wanted t)
        → Dec (t ≡ r)
        → Finds socket_to rank a.after t ⊎ Wanted t
    found t n w (yes same) =
        inl (subst (Finds socket_to rank a.after) (sym same) (ap (get_elem? a.after) e ∙ a.here))
    found t n (inl old) (no differs) = inl (
        a.others (calculate_channel_index rank t)
          (λ q. index_injective rank r t other n differs (e ∙ q))
        ∙ old)
    found t n (inr (inl same)) (no differs) = absurd (differs same)
    found t n (inr (inr later)) (no differs) = inr later

accept_all-Grown :
    (socket_to : ℕ → ℕ) (rank sock : ℕ) (order channels : List ℕ)
    → rank < 2 ^ 31
    → rank ≤ length channels
    → AllBelow rank order
    → Grown socket_to rank channels
        (λ t. OneOf t order)
        (accept_all (length order) sock (map (arrives socket_to) order) channels)
unfolding accept_all
accept_all-Grown socket_to rank sock [] channels w h b = record {
  after = channels;
  went = refl;
  same_length = refl;
  finds = λ t n f. elim f [ inl old ↦ old | inr nothing ↦ absurd nothing ];
}
accept_all-Grown socket_to rank sock (r ∷ order) channels w h (below, b) =
    let other : r ≢ rank = ground (arith, below) in
    grow socket_to rank r r channels (λ t. OneOf t order) _ _ other (index_below below)
      (arrives-Sets socket_to r sock channels (omega (arith, h, below)) (omega (arith, w, below)))
      (λ cs l. accept_all-Grown socket_to rank sock order cs w (omega (arith, h, l)) b)
  where
    index_below : r < rank → calculate_channel_index rank r ≡ r
    index_below lt = unfold calculate_channel_index in ground (arith, lt)

connect_all-Grown :
    (socket_to : ℕ → ℕ) (rank left other_rank sock : ℕ) (connections : List Connect)
    (channels : List ℕ)
    → rank < other_rank
    → other_rank + left ≤ length channels + 1
    → AllReached socket_to left other_rank connections
    → Grown socket_to rank channels
        (λ t. (other_rank ≤ t) × (t < other_rank + left))
        (connect_all left other_rank sock connections channels)
unfolding connect_all
connect_all-Grown socket_to rank zero other_rank sock connections channels above h r = record {
  after = channels;
  went = refl;
  same_length = refl;
  finds = λ t n f. elim f [ inl old ↦ old | inr (low, high) ↦ absurd (omega (arith, low, high)) ];
}
connect_all-Grown socket_to rank (suc left) other_rank sock [] channels above h r = absurd r
connect_all-Grown socket_to rank (suc left) other_rank sock (c ∷ connections) channels above h
      (r, rs) =
    widened (
      grow socket_to rank other_rank (other_rank - 1) channels
        (λ t. (other_rank + 1 ≤ t) × (t < other_rank + 1 + left)) _ _ (ground (arith, above))
        (index_above above)
        (connect_from-Sets (other_rank - 1) (socket_to other_rank) sock c channels r
          (omega (arith, h, above)))
        (λ cs l.
          connect_all-Grown socket_to rank left (other_rank + 1) sock connections cs
            (omega (arith, above)) (omega (arith, h, l)) rs))
  where
    index_above : rank < other_rank → calculate_channel_index rank other_rank ≡ other_rank - 1
    index_above lt = unfold calculate_channel_index in ground (arith, lt)

    widened :
        {stage : Stage}
        → Grown socket_to rank channels
            (λ t. (t ≡ other_rank) ⊎ ((other_rank + 1 ≤ t) × (t < other_rank + 1 + left)))
            stage
        → Grown socket_to rank channels (λ t. (other_rank ≤ t) × (t < other_rank + suc left)) stage
    widened g = record {
      after = g.after;
      went = g.went;
      same_length = g.same_length;
      finds = λ t n f. g.finds t n (narrow t f (ℕ_discrete t other_rank));
    }
      where
        narrow :
            (t : ℕ)
            → Finds socket_to rank channels t ⊎ ((other_rank ≤ t) × (t < other_rank + suc left))
            → Dec (t ≡ other_rank)
            → Finds socket_to rank channels t
              ⊎ ((t ≡ other_rank) ⊎ ((other_rank + 1 ≤ t) × (t < other_rank + 1 + left)))
        narrow t (inl old) d = inl old
        narrow t (inr w) (yes same) = inr (inl same)
        narrow t (inr (low, high)) (no differs) =
            inr (inr (ground (arith, low, differs), omega (arith, high)))

-- The set-up ends with a list of channels in which each other machine is found.
abbrev pub AllFound : (ℕ → ℕ) → ℕ → ℕ → Outcome → Type 0
AllFound socket_to rank num_vms outcome =
    (channels : List ℕ) × (outcome ≡ ready channels)
    × (length channels ≡ num_vms - 1)
    × ((t : ℕ) → t < num_vms → t ≢ rank → Finds socket_to rank channels t)

-- A machine that can listen, when the machines of lower rank arrive in any order, each sending its rank
-- in one piece, and those of higher rank are connected to after any number of refusals and take the rank
-- in one piece: the set-up ends, and each other machine is found at the index at which the logic looks
-- for it, on the socket that leads to it.
pub set_up-AllFound :
    (socket_to : ℕ → ℕ) (rank num_vms sock : ℕ) (order : List ℕ) (connections : List Connect)
    → rank < num_vms
    → num_vms < 2 ^ 31
    → length order ≡ rank
    → AllBelow rank order
    → ((t : ℕ) → t < rank → OneOf t order)
    → AllReached socket_to (num_vms - (rank + 1)) (rank + 1) connections
    → AllFound socket_to rank num_vms (
        set_up rank num_vms
          (record { sock = some sock; bound = true; listens = true })
          (map (arrives socket_to) order)
          connections)
unfolding set_up listen_on set_up_with
set_up-AllFound socket_to rank num_vms sock order connections h w count below all reached = (
  b.after,
  ap finish both ∙ unfold finish in refl,
  b.same_length ∙ a.same_length ∙ length-replicate {A = ℕ} (num_vms - 1) 0,
  λ t lt n. b.finds t n (wanted t lt n (Bool-cases (ltb t rank))),
)
  where
    start : List ℕ
    start = replicate (num_vms - 1) 0

    accepted : Stage
    accepted = accept_all rank sock (map (arrives socket_to) order) start

    a : Grown socket_to rank start (λ t. OneOf t order) accepted
    a =
        subst
          (λ (k : ℕ).
            Grown socket_to rank start (λ t. OneOf t order)
              (accept_all k sock (map (arrives socket_to) order) start))
          count
          (accept_all-Grown socket_to rank sock order start (omega (arith, h, w))
            (omega (arith, h, length-replicate {A = ℕ} (num_vms - 1) 0)) below)

    b :
        Grown socket_to rank a.after
          (λ t. (rank + 1 ≤ t) × (t < rank + 1 + (num_vms - (rank + 1))))
          (connect_all (num_vms - (rank + 1)) (rank + 1) sock connections a.after)
    b =
        connect_all-Grown socket_to rank (num_vms - (rank + 1)) (rank + 1) sock connections a.after
          (omega arith) (omega (arith, h, a.same_length, length-replicate {A = ℕ} (num_vms - 1) 0))
          reached

    next : List ℕ → Stage
    next cs = connect_all (num_vms - (rank + 1)) (rank + 1) sock connections cs

    both : then_do accepted next ≡ goes b.after
    both = ap (λ (st : Stage). then_do st next) a.went ∙ unfold then_do in b.went

    wanted :
        (t : ℕ)
        → t < num_vms
        → t ≢ rank
        → (ltb t rank ≡ true) ⊎ (ltb t rank ≡ false)
        → Finds socket_to rank a.after t
          ⊎ ((rank + 1 ≤ t) × (t < rank + 1 + (num_vms - (rank + 1))))
    wanted t lt n (inl less) = inl (a.finds t n (inr (all t (ground (arith, less)))))
    wanted t lt n (inr more) = inr (ground (arith, more, n), omega (arith, lt, h))
