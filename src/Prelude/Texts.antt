-- ===== src/Prelude/Texts.antt =====
-- Texts: their equality, the text of a literal, and lower case.
use Prim.Native.Nat.{ℕ, ◌+◌, ◌-◌, ◌*◌, ◌%◌, ◌^◌}
use Prim.Native.Char.{code}
use Prim.Native.String.{String}
use mathlib.Core.Path.{◌≡◌, refl}
use mathlib.Core.Bool.{Bool, true, false, ◌&&◌, ◌||◌}
use mathlib.Core.Option.{Option, none, some}
use mathlib.Core.List.{List, [], ◌∷◌}
use native.Mathlib.Omega.{arith}
use data_loader.Prelude.Tests.{if◌then◌else◌, ltb, leb, ◌==◌, ==_refl}
use data_loader.Prelude.Errors.{Text}

-- `s == t` and `s != t` on Go strings.
unfoldable pub same_text : Text → Text → Bool
same_text [] [] = true
same_text [] (d ∷ ds) = false
same_text (c ∷ cs) [] = false
same_text (c ∷ cs) (d ∷ ds) = c == d && same_text cs ds

pub same_text_refl : (t : Text) → same_text t t ≡ true
unfolding same_text
same_text_refl [] = refl
same_text_refl (c ∷ cs) = ground (arith, ==_refl c, same_text_refl cs)

-- The text of a string literal.
abbrev pub lit : String → Text
lit String.[] = []
lit (String.◌∷◌ c s) = code c ∷ lit s

-- `unicode.ToLower`, as far as a comparison with an ASCII word can tell: the capitals, the Kelvin
-- sign and the dotted capital I have an ASCII letter in lower case.
abbrev pub lower_rune : ℕ → ℕ
lower_rune c =
    if leb b'A' c && leb c b'Z'
    then c + 32
    else if c == 0x212A
    then b'k'
    else if c == 0x130
    then b'i'
    else c

-- `strings.ToLower`.
abbrev pub to_lower : Text → Text
to_lower [] = []
to_lower (c ∷ cs) = lower_rune c ∷ to_lower cs

-- `unicode.ToUpper` in the same sense: the small letters, the dotless i and the long s.
abbrev pub upper_rune : ℕ → ℕ
upper_rune c =
    if leb b'a' c && leb c b'z'
    then c - 32
    else if c == 0x131
    then b'I'
    else if c == 0x17F
    then b'S'
    else c

-- `strings.ToUpper`.
abbrev pub to_upper : Text → Text
to_upper [] = []
to_upper (c ∷ cs) = upper_rune c ∷ to_upper cs

-- A `case` of a `switch` on a string.
abbrev pub one_of : Text → List String → Bool
one_of t [] = false
one_of t (s ∷ ss) = same_text t (lit s) || one_of t ss

-- `unicode.IsSpace`.
abbrev pub is_space : ℕ → Bool
is_space c =
    (leb 9 c && leb c 13)
    || c == 0x20
    || c == 0x85
    || c == 0xA0
    || c == 0x1680
    || (leb 0x2000 c && leb c 0x200A)
    || c == 0x2028
    || c == 0x2029
    || c == 0x202F
    || c == 0x205F
    || c == 0x3000

decimal_from : ℕ → Text → Option ℕ
decimal_from n [] = some n
decimal_from n (c ∷ cs) =
    let rest = decimal_from (n * 10 + (c - b'0')) cs in
    if leb b'0' c && leb c b'9' then rest else none

decimal : Text → Option ℕ
unfolding decimal_from
decimal [] = none
decimal (c ∷ cs) = decimal_from 0 (c ∷ cs)

abbrev positive : Option ℕ → Option ℕ
positive none = none
positive (some n) = if ltb n (2 ^ 63) then some n else none

abbrev negative : Option ℕ → Option ℕ
negative none = none
negative (some n) = if leb n (2 ^ 63) then some ((2 ^ 64 - n) % 2 ^ 64) else none

-- `strconv.Atoi`: an `int` as its 64 bits, or none for an error.
unfoldable pub atoi : Text → Option ℕ
unfolding decimal
atoi [] = none
atoi (c ∷ cs) =
    if c == b'-'
    then negative (decimal cs)
    else if c == b'+'
    then positive (decimal cs)
    else positive (decimal (c ∷ cs))

-- `0 < n` for an `int`.
abbrev pub is_positive : ℕ → Bool
is_positive n = ltb 0 n && ltb n (2 ^ 63)
