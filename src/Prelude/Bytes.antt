-- ===== src/Prelude/Bytes.antt =====
-- Integers as bytes, in both orders.
use Prim.Native.Nat.{ℕ, zero, suc, ◌+◌, ◌*◌, ◌/◌, ◌%◌, ◌^◌, ◌<◌}
use mathlib.Core.Path.{◌≡◌, refl, ap, ◌∙◌}
use mathlib.Core.Option.{Option, none, some}
use mathlib.Core.List.{List, [], ◌∷◌, ◌++◌}
use native.Mathlib.Omega.{arith}
use native.Mathlib.Nat.{pow-suc}
use cs.Prelude.Lists.{length}

-- The low `n` bytes, least significant first.
unfoldable pub le_bytes : ℕ → ℕ → List ℕ
le_bytes zero v = []
le_bytes (suc n) v = v % 256 ∷ le_bytes n (v / 256)

unfoldable pub of_le_bytes : List ℕ → ℕ
of_le_bytes [] = 0
of_le_bytes (b ∷ bs) = b + 256 * of_le_bytes bs

pub length-le_bytes : (n v : ℕ) → length (le_bytes n v) ≡ n
unfolding le_bytes
length-le_bytes zero v = refl
length-le_bytes (suc n) v = ap suc (length-le_bytes n (v / 256))

pub of_le_bytes-le_bytes : (n v : ℕ) → v < 256 ^ n → of_le_bytes (le_bytes n v) ≡ v
unfolding le_bytes of_le_bytes
of_le_bytes-le_bytes zero v h = omega arith
of_le_bytes-le_bytes (suc n) v h =
    omega (arith, of_le_bytes-le_bytes n (v / 256) (omega (arith, pow-suc 256 n)))

-- The low `n` bytes, most significant first, before `rest`.
unfoldable pub put_be : ℕ → ℕ → List ℕ → List ℕ
put_be zero v rest = rest
put_be (suc n) v rest = put_be n (v / 256) (v % 256 ∷ rest)

-- Reading `n` bytes, most significant first; `none` past the end.
unfoldable pub read_be : ℕ → ℕ → List ℕ → Option (ℕ × List ℕ)
read_be zero acc bytes = some (acc, bytes)
read_be (suc n) acc [] = none
read_be (suc n) acc (b ∷ bytes) = read_be n (acc * 256 + b) bytes

pub length-put_be : (n v : ℕ) (rest : List ℕ) → length (put_be n v rest) ≡ n + length rest
unfolding put_be
length-put_be zero v rest = omega arith
length-put_be (suc n) v rest = omega (arith, length-put_be n (v / 256) (v % 256 ∷ rest))

read_be-put_be_more :
    (n m v acc : ℕ) (rest : List ℕ)
    → v < 256 ^ n
    → read_be (n + m) acc (put_be n v rest) ≡ read_be m (acc * 256 ^ n + v) rest
unfolding put_be read_be
read_be-put_be_more zero m v acc rest h =
    ap (λ (k : ℕ). read_be k acc rest) {x = 0 + m} {y = m} (omega arith)
    ∙ ap (λ (k : ℕ). read_be m k rest) {x = acc} {y = acc * 256 ^ 0 + v} (omega arith)
read_be-put_be_more (suc n) m v acc rest h =
    ap (λ (k : ℕ). read_be k acc (put_be n (v / 256) (v % 256 ∷ rest))) (omega arith)
    ∙ read_be-put_be_more n (suc m) (v / 256) acc (v % 256 ∷ rest) (omega (arith, pow-suc 256 n))
    ∙ ap (λ (k : ℕ). read_be m k rest) (grind (arith, ap (λ (k : ℕ). acc * k) (pow-suc 256 n)))

pub read_be-put_be :
    (n v : ℕ) (rest : List ℕ) → v < 256 ^ n → read_be n 0 (put_be n v rest) ≡ some (v, rest)
read_be-put_be n v rest h =
    ap (λ (k : ℕ). read_be k 0 (put_be n v rest)) (omega arith)
    ∙ read_be-put_be_more n 0 v 0 rest h
    ∙ unfold read_be in ap (λ (k : ℕ). some (k, rest)) (omega arith)

pub put_be-append : (n v : ℕ) (xs ys : List ℕ) → put_be n v xs ++ ys ≡ put_be n v (xs ++ ys)
unfolding put_be
put_be-append zero v xs ys = refl
put_be-append (suc n) v xs ys = put_be-append n (v / 256) (v % 256 ∷ xs) ys
