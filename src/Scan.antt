-- ===== src/Scan.antt =====
-- The functions of the C library that read numbers from text, as both programs use them. The
-- locale is "C", a `long` has 64 bits.
use riscv_student_pack.Common.{
  ℕ, ◌+◌, ◌-◌, ◌*◌, ◌^◌, Bool, true, false, ◌||◌, ◌&&◌, List, [], ◌∷◌, Option, none, some, ltb, leb,
  ◌==◌, if◌then◌else◌, get_or, min, u32,
}
use riscv_student_pack.Assembler.Chars.{is_digit, skip_spaces}

-- What a digit is worth, 16 for any other byte.
abbrev pub digit_value : ℕ → ℕ
digit_value c =
    if is_digit c
    then c - b'0'
    else if leb b'a' c && leb c b'f'
    then c - b'a' + 10
    else if leb b'A' c && leb c b'F'
    then c - b'A' + 10
    else 16

-- The number that the digits at the front of a text are in a base, behind `acc`.
unfoldable pub number_from : (base acc : ℕ) → List ℕ → ℕ
number_from base acc [] = acc
number_from base acc (c ∷ s) =
    let rest = number_from base (acc * base + digit_value c) s in
    if ltb (digit_value c) base then rest else acc

-- What stands behind those digits.
unfoldable pub after_digits : (base : ℕ) → List ℕ → List ℕ
after_digits base [] = []
after_digits base (c ∷ s) =
    let rest = after_digits base s in if ltb (digit_value c) base then rest else c ∷ s

abbrev pub is_x : ℕ → Bool
is_x c = c == b'x' || c == b'X'

-- Whether a text begins with a digit of the base.
abbrev pub starts_digit : (base : ℕ) → List ℕ → Bool
starts_digit base [] = false
starts_digit base (c ∷ s) = ltb (digit_value c) base

-- `(int32_t)strtol` from the sign and the magnitude of the text: the value is cut off at the bounds
-- of a 64-bit `long`, of which the low half is kept. `atoi` and `%d` are the same in base 10.
abbrev pub long_to_int : Bool → ℕ → ℕ
long_to_int true n = u32 (2 ^ 64 - min n (2 ^ 63))
long_to_int false n = u32 (min n (2 ^ 63 - 1))

abbrev pub drop_two : List ℕ → List ℕ
drop_two (a ∷ b ∷ s) = s
drop_two s = []

-- The sign in front of a number, and what stands behind it.
abbrev pub take_sign : List ℕ → Bool × List ℕ
take_sign [] = (false, [])
take_sign (c ∷ s) =
    if c == b'-' then (true, s) else if c == b'+' then (false, s) else (false, c ∷ s)

-- Whether the digits chosen by the prefix are hexadecimal, and otherwise their base.
abbrev is_hex : List ℕ → Bool
is_hex s = get_or s 0 0 == b'0' && (is_x (get_or s 1 0) && starts_digit 16 (drop_two s))

abbrev small_base : List ℕ → ℕ
small_base s = if get_or s 0 0 == b'0' then 8 else 10

abbrev magnitude_auto : List ℕ → ℕ
magnitude_auto s =
    if is_hex s then number_from 16 0 (drop_two s) else number_from (small_base s) 0 s

abbrev rest_auto : List ℕ → List ℕ
rest_auto s = if is_hex s then after_digits 16 (drop_two s) else after_digits (small_base s) s

-- `(int)strtol(s, &end, 0)` and the text at `end`, which is `s` itself where no number stands.
unfoldable pub strtol_auto : List ℕ → ℕ × List ℕ
unfolding number_from after_digits
strtol_auto s =
    let (negative, t) = take_sign (skip_spaces s) in
    if starts_digit 10 t then (long_to_int negative (magnitude_auto t), rest_auto t) else (0, s)

-- `(uint32_t)strtoul(s, nullptr, 0)`: too large a number becomes `ULONG_MAX`, and a sign negates.
abbrev ulong_to_int : Bool → ℕ → ℕ
ulong_to_int negative n =
    if leb (2 ^ 64) n then 2 ^ 32 - 1 else if negative then u32 (2 ^ 64 - n) else u32 n

unfoldable pub strtoul_auto : List ℕ → ℕ
unfolding number_from
strtoul_auto s =
    let (negative, t) = take_sign (skip_spaces s) in
    if starts_digit 10 t then ulong_to_int negative (magnitude_auto t) else 0

-- `sscanf(s, "%d", &size)`: the pattern of the number, or `none` where none stands.
unfoldable pub scan_decimal : List ℕ → Option ℕ
unfolding number_from
scan_decimal s =
    let (negative, t) = take_sign (skip_spaces s) in
    if starts_digit 10 t then some (long_to_int negative (number_from 10 0 t)) else none
