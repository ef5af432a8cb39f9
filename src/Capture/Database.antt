-- ===== src/Capture/Database.antt =====
-- The object stores of the browser's database, as src/app/lib/captureStore.ts uses them: records
-- under their `id`, in the order of the keys.
use text.Mathlib.TextEquality.{eq_iff}
use kerf_app.Common.{
  Bool, Bool-cases, List, Option, String, [], ap, arith, false, if◌then◌else◌, inl, inr, keep, none,
  not, number_eq, some, sym, text_eq, true, ◌==◌, ◌∙◌, ◌∷◌, ◌≡◌, ◌≢◌,
}
use kerf_app.Common.Text.{codes, is_before}

pub differ : (a b : String) → a ≢ b → (a == b) ≡ false
differ a b n = elim (Bool-cases (a == b)) [ inl h ↦ absurd (n ((eq_iff a b).0 h)) | inr h ↦ h ]

module _ {A : Type 0} (key : A → String) where
  -- `store.get(k)`
  unfoldable pub get : List A → String → Option A
  get [] k = none
  get (x ∷ xs) k = let rest = get xs k in if key x == k then some x else rest

  -- `store.put(x)`
  unfoldable pub put : A → List A → List A
  put x [] = x ∷ []
  put x (y ∷ ys) =
      let rest = put x ys in
      if key y == key x
      then x ∷ ys
      else if is_before (codes (key x)) (codes (key y))
      then x ∷ y ∷ ys
      else y ∷ rest

  -- `store.delete(k)`
  unfoldable pub delete_key : String → List A → List A
  delete_key k xs = keep (λ x. not (key x == k)) xs

  pub get-put : (x : A) (k : String) (xs : List A) → key x ≡ k → get (put x xs) k ≡ some x
  unfolding get put
  get-put x k [] e = let here : (key x == k) ≡ true = (eq_iff (key x) k).1 e in ground arith
  get-put x k (y ∷ ys) e =
      let here : (key x == k) ≡ true = (eq_iff (key x) k).1 e in
      let later = get-put x k ys e in
      let other : (key y == k) ≡ (key y == key x) = ap (λ z. key y == z) (sym e) in
      elim (Bool-cases (key y == key x)) [
        | inl same ↦ ground arith
        | inr differs ↦ elim (Bool-cases (is_before (codes (key x)) (codes (key y)))) [
          | inl before ↦ ground arith
          | inr after ↦ ground arith
        ]
      ]

  pub get-put_other : (x : A) (k : String) (xs : List A) → key x ≢ k → get (put x xs) k ≡ get xs k
  unfolding get put
  get-put_other x k [] n = let there : (key x == k) ≡ false = differ (key x) k n in ground arith
  get-put_other x k (y ∷ ys) n =
      let there : (key x == k) ≡ false = differ (key x) k n in
      let later = get-put_other x k ys n in
      elim (Bool-cases (key y == key x)) [
        | inl same ↦
            let e = (eq_iff (key y) (key x)).0 same in
            let away : (key y == k) ≡ false = differ (key y) k (λ h. n (sym e ∙ h)) in ground arith
        | inr differs ↦ elim (Bool-cases (is_before (codes (key x)) (codes (key y)))) [
          | inl before ↦ ground arith
          | inr after ↦ ground arith
        ]
      ]

  -- What is found under a key has that key.
  pub get-key : (k : String) (x : A) (xs : List A) → get xs k ≡ some x → key x ≡ k
  unfolding get
  get-key k x [] e = cc
  get-key k x (y ∷ ys) e = elim (Bool-cases (key y == k)) [
    | inl same ↦ let found : y ≡ x = ground arith in sym (ap key found) ∙ (eq_iff (key y) k).0 same
    | inr differs ↦ get-key k x ys (ground arith)
  ]

  -- A record that fails a test, and takes the place of none that passes it, changes nothing of
  -- what the test lets through.
  pub keep-put :
      (p : A → Bool) (x : A) (xs : List A)
      → p x ≡ false
      → ((y : A) → get xs (key x) ≡ some y → p y ≡ false)
      → keep p (put x xs) ≡ keep p xs
  unfolding get put
  keep-put p x [] f h = ground arith
  keep-put p x (y ∷ ys) f h = elim (Bool-cases (key y == key x)) [
    | inl same ↦ let g : p y ≡ false = h y (ground arith) in ground arith
    | inr differs ↦
        let later = keep-put p x ys f (λ z e. h z (ground arith)) in
        elim (Bool-cases (is_before (codes (key x)) (codes (key y)))) [
          | inl before ↦ ground arith
          | inr after ↦ ground arith
        ]
  ]
