-- ===== src/Proposal/NumberLaws.antt =====
-- The numbers of proposals are read back as they were written, and a new one is new
-- (src/proposal/numbering.ts).
use kerf_app.Common.{
  Bool, Bool-cases, List, [], all, and_split, ap, arith, false, inl, inr, is_empty, leb_iff, length,
  ltb, refl, some, suc, true, zero, ℕ, ◌%◌, ◌++◌, ◌+◌, ◌-◌, ◌/◌, ◌<◌, ◌∙◌, ◌∷◌, ◌≡◌, ◌≤◌,
}
use kerf_app.Checks.Patterns.{is_digit}
use kerf_app.Proposal.Numbering.{
  Groups, decimal_codes, digits_from, drop_while, format_number, is_capital, pad_start, read_groups,
  read_sequence, read_year, sequence_codes, take_while, value_from,
}

-- A text of a class, followed by a character out of the class or by nothing.
take_while-stop :
    (p : ℕ → Bool) (xs : List ℕ) (c : ℕ) (s : List ℕ)
    → all p xs ≡ true
    → p c ≡ false
    → (take_while p (xs ++ (c ∷ s)) ≡ xs) × (drop_while p (xs ++ (c ∷ s)) ≡ c ∷ s)
unfolding take_while drop_while
take_while-stop p [] c s h e = (rw e, rw e)
take_while-stop p (x ∷ xs) c s h e =
    let (here, more) = and_split (p x) (all p xs) h in
    let (taken, left) = take_while-stop p xs c s more e in
    (rw here (ap (λ t. x ∷ t) taken), rw here left)

take_while-all :
    (p : ℕ → Bool) (xs : List ℕ) → all p xs ≡ true → (take_while p xs ≡ xs) × (drop_while p xs ≡ [])
unfolding take_while drop_while
take_while-all p [] h = (refl, refl)
take_while-all p (x ∷ xs) h =
    let (here, more) = and_split (p x) (all p xs) h in
    let (taken, left) = take_while-all p xs more in (rw here (ap (λ t. x ∷ t) taken), rw here left)

-- Digits are written as digits, and read back as the number that they continue.
digits_from-digits :
    (f n : ℕ) (acc : List ℕ) → all is_digit acc ≡ true → all is_digit (digits_from f n acc) ≡ true
unfolding digits_from
digits_from-digits zero n acc h = h
digits_from-digits (suc f) n acc h =
    ground (arith, digits_from-digits f (n / 10) ((48 + n % 10) ∷ acc))

value_from-digits :
    (f n : ℕ) (acc : List ℕ) → n < f → value_from 0 (digits_from f n acc) ≡ value_from n acc
unfolding digits_from value_from
value_from-digits zero n acc h = elim h [ ]
value_from-digits (suc f) n acc h = elim (Bool-cases (ltb n 10)) [
  | inl small ↦ rw small (ap (λ k. value_from k acc) (omega arith))
  | inr large ↦ rw large (
      value_from-digits f (n / 10) ((48 + n % 10) ∷ acc) (ground arith)
      ∙ ap (λ k. value_from k acc) (omega arith))
]

decimal_codes-digits : (n : ℕ) → all is_digit (decimal_codes n) ≡ true
unfolding decimal_codes
decimal_codes-digits n = digits_from-digits (suc n) n [] refl

pub value-decimal_codes : (n : ℕ) → value_from 0 (decimal_codes n) ≡ n
unfolding decimal_codes value_from
value-decimal_codes n = value_from-digits (suc n) n [] (omega arith)

-- Four digits for four rounds of the division.
length-four :
    (f n : ℕ) → 1000 ≤ n → n ≤ 9999 → length (digits_from (suc (suc (suc (suc f)))) n []) ≡ 4
unfolding digits_from
length-four f n low high = ground arith

length-decimal_codes : (n : ℕ) → 1000 ≤ n → n ≤ 9999 → length (decimal_codes n) ≡ 4
unfolding decimal_codes
length-decimal_codes n low high =
    let e : suc n ≡ suc (suc (suc (suc (n - 3)))) = omega arith in
    ap (λ f. length (digits_from f n [])) e ∙ length-four (n - 3) n low high

-- Zeros in front change neither the class nor the value.
pad_start-digits : (s : List ℕ) → all is_digit s ≡ true → all is_digit (pad_start s) ≡ true
pad_start-digits [] h = refl
pad_start-digits (a ∷ []) h = h
pad_start-digits (a ∷ b ∷ []) h = h
pad_start-digits (a ∷ b ∷ c ∷ s) h = h

value-pad_start : (s : List ℕ) → value_from 0 (pad_start s) ≡ value_from 0 s
unfolding value_from
value-pad_start [] = refl
value-pad_start (a ∷ []) = refl
value-pad_start (a ∷ b ∷ []) = refl
value-pad_start (a ∷ b ∷ c ∷ s) = refl

pad_start-nonempty : (s : List ℕ) → is_empty (pad_start s) ≡ false
pad_start-nonempty [] = refl
pad_start-nonempty (a ∷ []) = refl
pad_start-nonempty (a ∷ b ∷ []) = refl
pad_start-nonempty (a ∷ b ∷ c ∷ s) = refl

sequence_codes-digits : (n : ℕ) → all is_digit (sequence_codes n) ≡ true
unfolding sequence_codes
sequence_codes-digits n = elim (Bool-cases (ltb n 1000)) [
  | inl short ↦ rw short (pad_start-digits (decimal_codes n) (decimal_codes-digits n))
  | inr long ↦ rw long (decimal_codes-digits n)
]

pub value-sequence_codes : (n : ℕ) → value_from 0 (sequence_codes n) ≡ n
unfolding sequence_codes
value-sequence_codes n = elim (Bool-cases (ltb n 1000)) [
  | inl short ↦ rw short (value-pad_start (decimal_codes n) ∙ value-decimal_codes n)
  | inr long ↦ rw long (value-decimal_codes n)
]

digits_from-nonempty :
    (f n : ℕ) (acc : List ℕ) → is_empty acc ≡ false → is_empty (digits_from f n acc) ≡ false
unfolding digits_from
digits_from-nonempty zero n acc h = h
digits_from-nonempty (suc f) n acc h =
    ground (arith, digits_from-nonempty f (n / 10) ((48 + n % 10) ∷ acc))

decimal_codes-nonempty : (n : ℕ) → is_empty (decimal_codes n) ≡ false
unfolding decimal_codes digits_from
decimal_codes-nonempty n = ground (arith, digits_from-nonempty n (n / 10) ((48 + n % 10) ∷ []))

sequence_codes-nonempty : (n : ℕ) → is_empty (sequence_codes n) ≡ false
unfolding sequence_codes
sequence_codes-nonempty n = elim (Bool-cases (ltb n 1000)) [
  | inl short ↦ rw short (pad_start-nonempty (decimal_codes n))
  | inr long ↦ rw long (decimal_codes-nonempty n)
]

-- A prefix is one to four capital letters.
abbrev pub IsPrefix : List ℕ → Type 0
IsPrefix prefix = (all is_capital prefix ≡ true) × (1 ≤ length prefix) × (length prefix ≤ 4)

-- The three groups of a number that was written.
abbrev pub groups_of : List ℕ → ℕ → ℕ → Groups
groups_of prefix year sequence = record {
  prefix_text = prefix;
  year_text = decimal_codes year;
  sequence_text = sequence_codes sequence;
}

read_sequence-codes :
    (prefix year : List ℕ) (s : List ℕ)
    → all is_digit s ≡ true
    → is_empty s ≡ false
    → read_sequence prefix year s
      ≡ some (record { prefix_text = prefix; year_text = year; sequence_text = s })
read_sequence-codes prefix year s digits nonempty =
    let (taken, left) = take_while-all is_digit s digits in rw (taken, left, nonempty)

read_year-codes :
    (prefix year s : List ℕ)
    → all is_digit year ≡ true
    → length year ≡ 4
    → all is_digit s ≡ true
    → is_empty s ≡ false
    → read_year prefix (year ++ (b'-' ∷ s))
      ≡ some (record { prefix_text = prefix; year_text = year; sequence_text = s })
read_year-codes prefix year s digits four s_digits nonempty =
    let (taken, left) = take_while-stop is_digit year b'-' s digits refl in
    rw (taken, left, four) (read_sequence-codes prefix year s s_digits nonempty)

pub read_groups-format_number :
    (prefix : List ℕ) (year sequence : ℕ)
    → IsPrefix prefix
    → 1000 ≤ year
    → year ≤ 9999
    → read_groups (format_number prefix year sequence) ≡ some (groups_of prefix year sequence)
unfolding read_groups
read_groups-format_number prefix year sequence (capitals, some_letter, few) low high =
    let tail = decimal_codes year ++ (b'-' ∷ sequence_codes sequence) in
    let (taken, left) = take_while-stop is_capital prefix b'-' tail capitals refl in
    let least = (leb_iff 1 (length prefix)).1 some_letter in
    let most = (leb_iff (length prefix) 4).1 few in
    rw (taken, left, least, most)
      (read_year-codes prefix (decimal_codes year) (sequence_codes sequence)
        (decimal_codes-digits year) (length-decimal_codes year low high)
        (sequence_codes-digits sequence) (sequence_codes-nonempty sequence))
