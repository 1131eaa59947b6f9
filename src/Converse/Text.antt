-- ===== src/Converse/Text.antt =====
-- What converse/exe_server/src/service/main/impl.cpp does with text: names without the spaces
-- around them, numbers in decimal and lists of them. A string is the list of its bytes.
pub mod Trim
mod Runs
use cs.Prelude.{
  ℕ, zero, suc, ◌+◌, ◌-◌, ◌*◌, ◌/◌, ◌%◌, ◌==◌, ltb, leb, ◌&&◌, if◌then◌else◌, Bool, Option, none,
  some, List, [], ◌∷◌, ◌++◌, take, drop,
}
use cs.Prelude.Options.{◌>>=◌}

abbrev pub space : ℕ
space = b' '

-- `find_first_not_of(' ')` and `find_last_not_of(' ')`; `none` is `npos`.
pub find_first_not_of : ℕ → List ℕ → Option ℕ
find_first_not_of c [] = none
find_first_not_of c (x ∷ xs) =
    let rest = find_first_not_of c xs in
    if x == c then rest >>= (λ (n : ℕ). some (suc n)) else some 0

abbrev pub after_first : Bool → Option ℕ → Option ℕ
after_first here none = if here then none else some 0
after_first here (some n) = some (suc n)

pub find_last_not_of : ℕ → List ℕ → Option ℕ
find_last_not_of c [] = none
find_last_not_of c (x ∷ xs) = after_first (x == c) (find_last_not_of c xs)

-- `substr(first, last + 1)`, whose second argument is a length; it throws when `first` is `npos`.
pub trimmed : List ℕ → Option (List ℕ)
trimmed name = find_first_not_of space name >>= λ first.
    find_last_not_of space name >>= λ last. some (take (last + 1) (drop first name))

-- The bytes before the first that is zero.
pub c_str : List ℕ → List ℕ
c_str [] = []
c_str (x ∷ xs) = let rest = c_str xs in if x == 0 then [] else x ∷ rest

-- `std::to_string`
pub digits : ℕ → ℕ → List ℕ
digits zero n = []
digits (suc fuel) n =
    let front = digits fuel (n / 10) in
    if ltb n 10 then (b'0' + n) ∷ [] else front ++ ((b'0' + n % 10) ∷ [])

abbrev max_digits : ℕ
max_digits = 20

pub to_string : ℕ → List ℕ
to_string n = digits max_digits n

-- `std::stoll` of text that starts with no space and no sign; it throws without a digit.
pub is_digit : ℕ → Bool
is_digit c = leb b'0' c && leb c b'9'

pub read_digits : ℕ → List ℕ → ℕ
read_digits n [] = n
read_digits n (c ∷ cs) =
    let rest = read_digits (n * 10 + (c - b'0')) cs in if is_digit c then rest else n

pub stoll : List ℕ → Option ℕ
stoll [] = none
stoll (c ∷ cs) = if is_digit c then some (read_digits 0 (c ∷ cs)) else none

-- `views::split(',')`: no parts of an empty text.
pub split_rest : List ℕ → List ℕ × List (List ℕ)
split_rest [] = ([], [])
split_rest (c ∷ cs) =
    let (part, parts) = split_rest cs in if c == b',' then ([], part ∷ parts) else (c ∷ part, parts)

pub split : List ℕ → List (List ℕ)
split [] = []
split (c ∷ cs) = let (part, parts) = split_rest (c ∷ cs) in part ∷ parts

pub stoll_each : List (List ℕ) → Option (List ℕ)
stoll_each [] = some []
stoll_each (part ∷ parts) =
    let rest = stoll_each parts in stoll part >>= λ n. rest >>= λ ns. some (n ∷ ns)

pub read_ids : List ℕ → Option (List ℕ)
read_ids text = stoll_each (split text)
