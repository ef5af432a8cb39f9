-- ===== src/Checks/Errors.antt =====
-- Reading a list of errors that turned out empty.
use kerf_app.Common.{
  All, Bool, List, Member, Option, String, [], and_split, ap, eqb_refl, false, if◌then◌else◌,
  includes→Member, is_empty, is_empty-append, is_some, none, number_eq, refl, some, suc, sym,
  text_eq, true, zero, ℕ, ◌++◌, ◌+◌, ◌>?◌, ◌∙◌, ◌∷◌, ◌≡◌, ◌≢◌,
}
use kerf_app.Common.Text.{is_nonempty}
use kerf_app.Common.Json.{Value, is_object, member, text}
use kerf_app.Checks.Guards.{
  check_given, errors_of, integer_cents, is_word, nonempty_string, require, require_given,
  require_object, require_one_of, sum_cents, validate_each,
}

-- The list is empty.
pub record NoErrors (errors : List String) : Type 0 where
  pub none_left : is_empty errors ≡ true

pub both_met : {xs ys : List String} → NoErrors (xs ++ ys) → NoErrors xs × NoErrors ys
both_met {xs} {ys} h =
    let (first, later) =
      and_split (is_empty xs) (is_empty ys) (sym (is_empty-append xs ys) ∙ h.none_left) in
    (record { none_left = first }, record { none_left = later })

pub require_met : (b : Bool) (m : String) → NoErrors (require b m) → b ≡ true
unfolding require
require_met true m h = refl
require_met false m h = let e = h.none_left in cc

if_else_met :
    (b : Bool) (m : String) (errors : List String)
    → NoErrors (if b then errors else m ∷ [])
    → (b ≡ true) × NoErrors errors
if_else_met true m errors h = (refl, h)
if_else_met false m errors h = let e = h.none_left in cc

pub object_met :
    (v : Value) (m : String) (errors : List String)
    → NoErrors (require_object v m errors)
    → (is_object v ≡ true) × NoErrors errors
unfolding require_object
object_met v m errors h = if_else_met (is_object v) m errors h

pub given_met :
    {A : Type 0} (o : Option A) (m : String) (check : A → List String)
    → NoErrors (require_given o m check)
    → (a : A) × (o ≡ some a) × NoErrors (check a)
unfolding require_given
given_met none m check h = let e = h.none_left in cc
given_met (some a) m check h = (a, refl, h)

-- What is given has no errors.
pub check_met :
    {A : Type 0} (o : Option A) (check : A → List String) (a : A)
    → o ≡ some a
    → NoErrors (check_given o check)
    → NoErrors (check a)
unfolding check_given
check_met o check a e h = rw e at h

pub if_met :
    (b : Bool) (xs : List String) → b ≡ true → NoErrors (if b then xs else []) → NoErrors xs
if_met true xs e h = h
if_met false xs e h = cc

pub is_some_met : {A : Type 0} (o : Option A) → is_some o ≡ true → (a : A) × (o ≡ some a)
is_some_met none h = cc
is_some_met (some a) h = (a, refl)

pub >?-some :
    {A B : Type 0} (o : Option A) (f : A → Option B) {a : A} {b : B}
    → o ≡ some a
    → f a ≡ some b
    → (o >? f) ≡ some b
>?-some o f e g = rw (e, g)

-- What a check ensures of an element holds of all elements of the array.
pub validate_each-All :
    {P : Value → Type 0} (check : Value → String → List String)
    → ((v : Value) (path : String) → NoErrors (check v path) → P v)
    → (path : String) (i : ℕ) (vs : List Value) → NoErrors (validate_each check path i vs)
    → All P vs
unfolding validate_each
validate_each-All check ensures path i [] h = tt
validate_each-All check ensures path i (v ∷ rest) h =
    let (first, later) = both_met h in
    (ensures v _ first, validate_each-All check ensures path (suc i) rest later)

-- The amounts under a key of the elements add up to a number.
abbrev pub SumsTo : String → List Value → ℕ → Type 0
SumsTo key [] n = n ≡ 0
SumsTo key (v ∷ rest) n =
    (a : ℕ) × (m : ℕ) × (integer_cents (member v key) ≡ some a) × (n ≡ a + m) × SumsTo key rest m

abbrev pub HasCents : String → Value → Type 0
HasCents key v = (is_object v ≡ true) × (a : ℕ) × (integer_cents (member v key) ≡ some a)

pub sum_cents-given :
    (key : String) (vs : List Value)
    → All (HasCents key) vs
    → (n : ℕ) × (sum_cents key vs ≡ some n) × SumsTo key vs n
unfolding sum_cents
sum_cents-given key [] h = (0, refl, refl)
sum_cents-given key (v ∷ rest) h =
    let (object, a, e) = h.0 in
    let (m, more, sums) = sum_cents-given key rest h.1 in
    (a + m, rw (object, e, more), (a, m, e, refl, sums))

pub map-All :
    {P Q : Value → Type 0} (f : (v : Value) → P v → Q v) (vs : List Value) → All P vs → All Q vs
map-All f [] h = tt
map-All f (v ∷ rest) h = (f v h.0, map-All f rest h.1)

pub is_word-ne : (v : Value) (word : String) → is_word v word ≡ false → v ≢ text word
is_word-ne v word h e = let named : is_word v word ≡ true = rw e (eqb_refl word) in cc

abbrev pub nth : ℕ → List (List String) → List String
nth k [] = []
nth zero (errors ∷ rest) = errors
nth (suc k) (errors ∷ rest) = nth k rest

-- Each of the checks that were joined has no errors.
pub nth_met :
    (k : ℕ) (checks : List (List String)) → NoErrors (errors_of checks) → NoErrors (nth k checks)
unfolding errors_of
nth_met k [] h = record { none_left = refl }
nth_met zero (errors ∷ rest) h = (both_met h).0
nth_met (suc k) (errors ∷ rest) h = nth_met k rest (both_met h).1

pub nonempty_string-text : (v : Value) (s : String) → nonempty_string v ≡ some s → v ≡ text s
nonempty_string-text (text t) s h = by_test (is_nonempty t) h
  where
    by_test : (b : Bool) → (if b then some t else none) ≡ some s → text t ≡ text s
    by_test true e = cc
    by_test false e = cc
nonempty_string-text _ s h = cc

-- A text out of a set is one of the set.
pub one_of_met :
    (v : Value) (allowed : List String) (m : String) (unknown : String → String)
    → NoErrors (require_one_of v allowed m unknown)
    → (s : String) × (v ≡ text s) × Member s allowed
unfolding require_one_of
one_of_met v allowed m unknown h =
    let (s, e, known) = given_met _ _ _ h in
    (s, nonempty_string-text v s e, includes→Member allowed s (require_met _ _ known))

pub is_word-eq : (v : Value) (word : String) → is_word v word ≡ true → v ≡ text word
is_word-eq (text s) word h = ap text ((text_eq.eqb_iff s word).0 h)
is_word-eq _ word h = cc
