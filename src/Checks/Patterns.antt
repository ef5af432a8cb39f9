-- ===== src/Checks/Patterns.antt =====
-- Regular expressions of src/proposal/validation.ts, src/proposal/csi-divisions.ts and
-- src/persistence/events.ts as readers of code points: each returns what is left of the text.
use kerf_app.Common.{
  Bool, List, Option, [], false, if◌then◌else◌, is_empty, leb, nat_beq, none, or_else, some, suc,
  zero, ℕ, ◌&&◌, ◌>?◌, ◌||◌, ◌∷◌,
}
use mathlib.Core.Option

abbrev pub is_digit : ℕ → Bool
is_digit c = leb b'0' c && leb c b'9'

-- One character that passes a test.
unfoldable pub eat : (ℕ → Bool) → List ℕ → Option (List ℕ)
eat p [] = none
eat p (c ∷ s) = if p c then some s else none

-- So many digits.
unfoldable pub eat_digits : ℕ → List ℕ → Option (List ℕ)
unfolding eat
eat_digits zero s = some s
eat_digits (suc n) s = eat is_digit s >? eat_digits n

-- At most so many digits.
unfoldable pub skip_digits : ℕ → List ℕ → List ℕ
skip_digits zero s = s
skip_digits (suc n) [] = []
skip_digits (suc n) (c ∷ s) = if is_digit c then skip_digits n s else c ∷ s

-- `(?:\.\d{1,9})?`
abbrev pub eat_fraction : List ℕ → Option (List ℕ)
eat_fraction [] = some []
eat_fraction (c ∷ s) =
    if nat_beq c b'.' then Option.map (skip_digits 8) (eat_digits 1 s) else some (c ∷ s)

-- `(?:Z|[+-]\d{2}:\d{2})$`
abbrev pub is_zone : List ℕ → Bool
is_zone [] = false
is_zone (c ∷ s) =
    if nat_beq c b'Z'
    then is_empty s
    else (nat_beq c b'+' || nat_beq c b'-')
      && or_else (Option.map is_empty (eat_digits 2 s >? eat (λ d. nat_beq d b':') >? eat_digits 2))
          false

-- `ISO8601_REGEX`
unfoldable pub is_iso8601_text : List ℕ → Bool
unfolding eat eat_digits skip_digits
is_iso8601_text s =
    or_else
      (Option.map is_zone (
        eat_digits 4 s
        >? eat (λ d. nat_beq d b'-')
        >? eat_digits 2
        >? eat (λ d. nat_beq d b'-')
        >? eat_digits 2
        >? eat (λ d. nat_beq d b'T')
        >? eat_digits 2
        >? eat (λ d. nat_beq d b':')
        >? eat_digits 2
        >? eat (λ d. nat_beq d b':')
        >? eat_digits 2
        >? eat_fraction))
      false

-- `CSI_CODE_REGEX`
unfoldable pub is_csi_code_text : List ℕ → Bool
unfolding eat_digits
is_csi_code_text s = or_else (Option.map is_empty (eat_digits 2 s)) false
