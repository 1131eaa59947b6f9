-- ===== src/Mousedb/Concurrent/Tails.antt =====
-- What the shards have left, as blocks.
use cs.Prelude.{
  ℕ, ◌<◌, ◌≡◌, refl, ap, ◌==◌, if◌then◌else◌, some, List, [], ◌∷◌, ◌++◌, length, get_elem?, set,
  zero, suc, arith,
}
use mathlib.Core.Path.{subst}
use mathlib.Core.List.{Permᴰ, append_assoc}
use mathlib.Core.List.Permᴰ
use cs.Mousedb.Arena.Blocks.{Block, block}
use cs.Mousedb.Concurrent.{Shard}

unfoldable pub own : Shard → List Block
own s = if s.unused == 0 then [] else block s.begin s.unused ∷ []

abbrev pub tails : List Shard → List Block
tails [] = []
tails (s ∷ ss) = own s ++ tails ss

-- A shard in its place, which a write replaces.
pub record Place (ss : List Shard) (i : ℕ) : Type 0 where
  pub shard : Shard
  pub before : List Shard
  pub behind : List Shard
  pub found : get_elem? ss i ≡ some shard
  pub here : ss ≡ before ++ (shard ∷ behind)
  pub replaced : (t : Shard) → set ss i t ≡ before ++ (t ∷ behind)

pub place : (ss : List Shard) (i : ℕ) → i < length ss → Place ss i
place [] i h = absurd (omega arith)
place (s ∷ ss) zero h = record {
  shard = s;
  before = [];
  behind = ss;
  found = refl;
  here = refl;
  replaced = λ t. refl;
}
place (s ∷ ss) (suc i) h =
    let p = place ss i (omega arith) in
    record {
      shard = p.shard;
      before = s ∷ p.before;
      behind = p.behind;
      found = p.found;
      here = ap (◌∷◌ s) p.here;
      replaced = λ t. ap (◌∷◌ s) (p.replaced t);
    }

-- The block of one shard comes first, up to order.
exchange : (xs ys zs : List Block) → Permᴰ (xs ++ (ys ++ zs)) (ys ++ (xs ++ zs))
exchange xs ys zs =
    subst (λ (l : List Block). Permᴰ l (ys ++ (xs ++ zs))) (append_assoc xs ys zs)
      (subst (Permᴰ ((xs ++ ys) ++ zs)) (append_assoc ys xs zs)
        (Permᴰ.append_right zs (Permᴰ.append_comm xs ys)))

tails-Perm :
    (before behind : List Shard) (s : Shard)
    → Permᴰ (tails (before ++ (s ∷ behind))) (own s ++ tails (before ++ behind))
tails-Perm [] behind s = Permᴰ.refl _
tails-Perm (x ∷ before) behind s =
    Permᴰ.trans (Permᴰ.append_left (own x) (tails-Perm before behind s))
      (exchange (own x) (own s) (tails (before ++ behind)))

pub tails_first :
    (before behind : List Shard) (s : Shard) (users : List Block)
    → Permᴰ (tails (before ++ (s ∷ behind)) ++ users) (own s ++ (tails (before ++ behind) ++ users))
tails_first before behind s users =
    subst (Permᴰ (tails (before ++ (s ∷ behind)) ++ users))
      (append_assoc (own s) (tails (before ++ behind)) users)
      (Permᴰ.append_right users (tails-Perm before behind s))
