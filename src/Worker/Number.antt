-- ===== src/Worker/Number.antt =====
-- worker.rs: the text of a u64, and `str::parse::<u64>`.
pub mod Digits
use Prim.Native.Char.{code}
use Prim.Native.String.{[], ◌∷◌, slice, ◌++◌}
use download_manager.Base.{
  ℕ, zero, suc, ◌+◌, ◌-◌, ◌*◌, ◌/◌, ◌%◌, ◌^◌, String, ◌&&◌, Option, none, some, leb, ltb, ◌==◌,
  if◌then◌else◌,
}

abbrev digit : ℕ → String
digit d = slice "0123456789" d (d + 1)

unfoldable show_digits : ℕ → ℕ → String
show_digits zero n = digit (n % 10)
show_digits (suc fuel) n =
    let rest = show_digits fuel (n / 10) in if ltb n 10 then digit n else rest ++ digit (n % 10)

-- A u64 has at most twenty digits.
unfoldable pub show_u64 : ℕ → String
unfolding show_digits
show_u64 n = show_digits 20 n

-- A digit for which the number is no u64 is refused.
unfoldable parse_digits : ℕ → String → Option ℕ
parse_digits n [] = some n
parse_digits n (c ∷ rest) =
    let d = code c - 48 in
    let m = n * 10 + d in
    let parsed = parse_digits m rest in
    if leb 48 (code c) && (leb (code c) 57 && ltb m (2 ^ 64)) then parsed else none

abbrev unsigned : String → Option ℕ
unsigned [] = none
unsigned (c ∷ rest) = parse_digits 0 (c ∷ rest)

-- One `+` may stand in front.
unfoldable pub parse_u64 : String → Option ℕ
unfolding parse_digits
parse_u64 [] = none
parse_u64 (c ∷ rest) = if code c == 43 then unsigned rest else unsigned (c ∷ rest)
