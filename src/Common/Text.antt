-- ===== src/Common/Text.antt =====
-- Texts as code points: trimming, lower case, substrings, and numbers in decimal.
use Prim.Native.Nat.{ℕ, zero, suc, ◌+◌, ◌/◌, ◌%◌, ◌<◌}
use mathlib.Core.Path.{◌≡◌, refl}
use text.Mathlib.TextLemmas.{nil-append, cons-append}
use native.Mathlib.Omega.{arith}
use Prim.Native.Char.{code}
use Prim.Native.String
use Prim.Native.String.{String}
use mathlib.Core.Bool.{Bool, true, false, not, ◌&&◌, ◌||◌}
use mathlib.Core.List.{List, [], ◌∷◌}
use kerf_app.Common.Tests.{leb, ltb, nat_beq, if◌then◌else◌}

infixl 65 ◌+++◌
abbrev pub ◌+++◌ : String → String → String
s +++ t = String.◌++◌ s t

abbrev pub codes : String → List ℕ
codes String.[] = []
codes (String.◌∷◌ c s) = code c ∷ codes s

abbrev pub is_nonempty : String → Bool
is_nonempty String.[] = false
is_nonempty (String.◌∷◌ c s) = true

pub nonempty-append_left : (s t : String) → is_nonempty s ≡ true → is_nonempty (s +++ t) ≡ true
nonempty-append_left String.[] t h = cc
nonempty-append_left (String.◌∷◌ c s) t h = rw cons-append refl

pub nonempty-append_right : (s t : String) → is_nonempty t ≡ true → is_nonempty (s +++ t) ≡ true
nonempty-append_right String.[] t h = rw nil-append h
nonempty-append_right (String.◌∷◌ c s) t h = rw cons-append refl

-- The lower case of the letters A to Z; other code points stand.
abbrev pub to_lower : ℕ → ℕ
to_lower c = if leb b'A' c && leb c b'Z' then c + 32 else c

abbrev pub starts_with : List ℕ → List ℕ → Bool
starts_with [] s = true
starts_with (c ∷ p) [] = false
starts_with (c ∷ p) (d ∷ s) = nat_beq c d && starts_with p s

-- `s.includes(p)`
abbrev pub contains : List ℕ → List ℕ → Bool
contains p [] = starts_with p []
contains p (d ∷ s) = starts_with p (d ∷ s) || contains p s

-- The code points that `trim` removes: white space and line ends of the language.
abbrev pub is_space : ℕ → Bool
is_space c =
    (leb 9 c && leb c 13)
    || nat_beq c 32
    || nat_beq c 160
    || nat_beq c 5760
    || (leb 8192 c && leb c 8202)
    || nat_beq c 8232
    || nat_beq c 8233
    || nat_beq c 8239
    || nat_beq c 8287
    || nat_beq c 12288
    || nat_beq c 65279

-- `s.trim().length > 0`: some code point is no white space.
abbrev pub any_visible : List ℕ → Bool
any_visible [] = false
any_visible (c ∷ s) = if is_space c then any_visible s else true

digit_text : ℕ → String
digit_text zero = "0"
digit_text (suc zero) = "1"
digit_text (suc (suc zero)) = "2"
digit_text (suc (suc (suc zero))) = "3"
digit_text (suc (suc (suc (suc zero)))) = "4"
digit_text (suc (suc (suc (suc (suc zero))))) = "5"
digit_text (suc (suc (suc (suc (suc (suc zero)))))) = "6"
digit_text (suc (suc (suc (suc (suc (suc (suc zero))))))) = "7"
digit_text (suc (suc (suc (suc (suc (suc (suc (suc zero)))))))) = "8"
digit_text _ = "9"

decimal_from : ℕ → ℕ → String → String
decimal_from zero n acc = acc
decimal_from (suc fuel) n acc =
    let more = decimal_from fuel (n / 10) (digit_text (n % 10) +++ acc) in
    if ltb n 10 then digit_text n +++ acc else more

-- `String(n)`
unfoldable pub decimal : ℕ → String
unfolding decimal_from digit_text
decimal n = decimal_from (suc n) n ""

-- More fuel than the number changes nothing.
decimal_from_fuel :
    (f g n : ℕ) (acc : String) → n < f → n < g → decimal_from f n acc ≡ decimal_from g n acc
unfolding decimal_from
decimal_from_fuel zero g n acc h k = elim h [ ]
decimal_from_fuel (suc f) zero n acc h k = elim k [ ]
decimal_from_fuel (suc f) (suc g) n acc h k =
    ground (arith, decimal_from_fuel f g (n / 10) (digit_text (n % 10) +++ acc))

-- The text of a number does not depend on the fuel that its printing is given.
decimal_fuel : (f n : ℕ) → n < f → decimal n ≡ decimal_from f n ""
unfolding decimal
decimal_fuel f n h = decimal_from_fuel (suc n) f n "" (omega arith) h

-- `s < t` on texts, by their code points.
abbrev pub is_before : List ℕ → List ℕ → Bool
is_before [] [] = false
is_before [] (d ∷ t) = true
is_before (c ∷ s) [] = false
is_before (c ∷ s) (d ∷ t) = ltb c d || (nat_beq c d && is_before s t)

-- The text without the white space at its end, and without that at its start.
abbrev pub trim_end : String → String
trim_end String.[] = String.[]
trim_end (String.◌∷◌ c s) =
    let rest = trim_end s in
    if is_space (code c) && not (is_nonempty rest) then String.[] else String.◌∷◌ c rest

abbrev pub trim_start : String → String
trim_start String.[] = String.[]
trim_start (String.◌∷◌ c s) =
    let rest = trim_start s in if is_space (code c) then rest else String.◌∷◌ c s

-- `s.trim()`
abbrev pub trim : String → String
trim s = trim_end (trim_start s)
