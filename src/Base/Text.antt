-- ===== src/Base/Text.antt =====
-- Numbers and text: `std::to_string` on a `long`, the `%06x` of `snprintf` on an `int32_t`, and
-- `std::atoi`.
use nexran.Base.Tests.{if◌then◌else◌, ltb, leb, nat_beq}
use nexran.Base.Int.{ℤ, pos, negsuc}
use Prim.Native.Nat.{ℕ, zero, suc, ◌+◌, ◌*◌, ◌-◌, ◌/◌, ◌%◌, ◌^◌}
use Prim.Native.Char.{code}
use Prim.Native.String.{String, ◌++◌}
use mathlib.Core.Bool.{Bool, ◌&&◌, ◌||◌}
use mathlib.Core.List.{List, [], ◌∷◌}
use mathlib.Core.Path.{◌≡◌, refl}

digit_low : ℕ → String
digit_low zero = "0"
digit_low (suc zero) = "1"
digit_low (suc (suc zero)) = "2"
digit_low (suc (suc (suc zero))) = "3"
digit_low (suc (suc (suc (suc zero)))) = "4"
digit_low (suc (suc (suc (suc (suc zero))))) = "5"
digit_low (suc (suc (suc (suc (suc (suc zero)))))) = "6"
digit_low (suc (suc (suc (suc (suc (suc (suc n))))))) = "7"

digit_high : ℕ → String
digit_high zero = "8"
digit_high (suc zero) = "9"
digit_high (suc (suc zero)) = "a"
digit_high (suc (suc (suc zero))) = "b"
digit_high (suc (suc (suc (suc zero)))) = "c"
digit_high (suc (suc (suc (suc (suc zero))))) = "d"
digit_high (suc (suc (suc (suc (suc (suc zero)))))) = "e"
digit_high (suc (suc (suc (suc (suc (suc (suc n))))))) = "f"

-- One hexadecimal digit, for a number below 16.
unfoldable pub digit : ℕ → String
unfolding digit_low digit_high
digit n = if ltb n 8 then digit_low n else digit_high (n - 8)

-- The digits of `n` to a base, most significant first, with no leading zero; `fuel` bounds their
-- number.
digits : ℕ → ℕ → ℕ → String
unfolding digit
digits base zero n = ""
digits base (suc fuel) n =
    let more = digits base fuel (n / base) in
    (if nat_beq (n / base) 0 then "" else more) ++ digit (n % base)

-- A `long` has at most 19 decimal digits.
unfoldable pub to_string : ℤ → String
unfolding digits
to_string (pos n) = digits 10 20 n
to_string (negsuc n) = "-" ++ digits 10 20 (suc n)

-- Exactly `width` hexadecimal digits.
padded : ℕ → ℕ → String
unfolding digit
padded zero n = ""
padded (suc width) n = padded width (n / 16) ++ digit (n % 16)

-- `%06x`: at least six digits of the 32-bit pattern.
unfoldable pub hex06 : ℕ → String
unfolding digits padded
hex06 n = if ltb n (16 ^ 6) then padded 6 n else digits 16 8 n

to_string_example : to_string (negsuc 1206) ≡ "-1207"
unfolding to_string
to_string_example = refl

hex06_example : hex06 0xe00b ≡ "00e00b"
unfolding hex06
hex06_example = refl

-- The code points of a text.
abbrev pub codes : String → List ℕ
codes String.[] = []
codes (String.◌∷◌ c s) = code c ∷ codes s

is_digit : ℕ → Bool
is_digit c = leb b'0' c && leb c b'9'

-- A blank, or one of the five control characters from tab to carriage return.
is_space : ℕ → Bool
is_space c = nat_beq c b' ' || (leb 9 c && leb c 13)

digits_value : ℕ → List ℕ → ℕ
unfolding is_digit
digits_value n [] = n
digits_value n (c ∷ cs) =
    let more = digits_value (n * 10 + (c - b'0')) cs in if is_digit c then more else n

abbrev negated : ℕ → ℤ
negated zero = pos 0
negated (suc n) = negsuc n

atoi_codes : List ℕ → ℤ
unfolding is_space digits_value
atoi_codes [] = pos 0
atoi_codes (c ∷ cs) =
    let rest = atoi_codes cs in
    if is_space c
    then rest
    else if nat_beq c b'-'
    then negated (digits_value 0 cs)
    else if nat_beq c b'+'
    then pos (digits_value 0 cs)
    else pos (digits_value 0 (c ∷ cs))

-- A number that `int` cannot hold is undefined in C; here it is what the digits say.
unfoldable pub atoi : String → ℤ
unfolding atoi_codes
atoi s = atoi_codes (codes s)

atoi_example : atoi "  -42x" ≡ negsuc 41
unfolding atoi
atoi_example = refl
