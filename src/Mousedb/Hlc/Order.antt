-- ===== src/Mousedb/Hlc/Order.antt =====
-- The order on clocks is a strict linear order.
use cs.Prelude.{◌≡◌, ◌⊎◌, true, false, arith}
use cs.Mousedb.Hlc.{Hlc, less}

pub less_irrefl : (a : Hlc) → less a a ≡ false
unfolding less
less_irrefl a = ground arith

pub less_trans : (a b c : Hlc) → less a b ≡ true → less b c ≡ true → less a c ≡ true
unfolding less
less_trans a b c p q = ground arith

-- Of two different clocks one is before the other, and never both.
pub less_trichotomy :
    (a b : Hlc)
    → ((less a b ≡ true) × (less b a ≡ false)) ⊎ ((less b a ≡ true) × (less a b ≡ false)) ⊎ (a ≡ b)
unfolding less
less_trichotomy a b = ground arith

-- What is not above `b` is below whatever `b` is below.
pub less_of_not_above : (a b c : Hlc) → less b a ≡ false → less b c ≡ true → less a c ≡ true
unfolding less
less_of_not_above a b c p q = ground arith
