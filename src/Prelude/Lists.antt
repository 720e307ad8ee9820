-- ===== src/Prelude/Lists.antt =====
-- Lists over the native numbers: tests, Python's `in` and `remove`, and a predicate by recursion.
use Prim.Native.Nat.{ℕ, zero, suc, ◌+◌, ◌≤◌}
use mathlib.Core.Path.{◌≡◌, refl}
use mathlib.Core.Logic.{inl, inr}
use mathlib.Core.Bool.{Bool, true, false, ◌||◌}
use mathlib.Core.Option.{Option, none, some}
use mathlib.Core.List.{List, [], ◌∷◌, ◌++◌}
use native.Mathlib.Omega.{arith}
use agent_graph_studio.Prelude.Tests.{if◌then◌else◌, Bool-cases}
use agent_graph_studio.Prelude.Equality.{Eq, ◌==◌, ==_iff}

module _ {ℓ} {A : Type ℓ} where
  abbrev pub length : List A → ℕ
  length [] = 0
  length (x ∷ xs) = suc (length xs)

  pub length-append : (xs ys : List A) → length (xs ++ ys) ≡ length xs + length ys
  length-append [] ys = omega arith
  length-append (x ∷ xs) ys = omega (arith, length-append xs ys)

  abbrev pub any : (A → Bool) → List A → Bool
  any p [] = false
  any p (x ∷ xs) = p x || any p xs

  abbrev pub filter_list : (A → Bool) → List A → List A
  filter_list p [] = []
  filter_list p (x ∷ xs) = if p x then x ∷ filter_list p xs else filter_list p xs

  -- `next((x for x in xs if p(x)), None)`
  abbrev pub find : (A → Bool) → List A → Option A
  find p [] = none
  find p (x ∷ xs) = if p x then some x else find p xs

  -- `xs[n:]`
  abbrev pub drop : ℕ → List A → List A
  drop zero xs = xs
  drop (suc n) [] = []
  drop (suc n) (x ∷ xs) = drop n xs

  abbrev pub All {κ} : (A → Type κ) → List A → Type κ
  All P [] = Unit
  All P (x ∷ xs) = P x × All P xs

  pub All-append {κ} : (P : A → Type κ) (xs ys : List A) → All P xs → All P ys → All P (xs ++ ys)
  All-append P [] ys h k = k
  All-append P (x ∷ xs) ys h k = (h.0, All-append P xs ys h.1 k)

  pub All-map {κ μ} :
      (P : A → Type κ) (Q : A → Type μ) (xs : List A) → ((x : A) → P x → Q x) → All P xs → All Q xs
  All-map P Q [] f h = tt
  All-map P Q (x ∷ xs) f h = (f x h.0, All-map P Q xs f h.1)

module _ {ℓ} {A : Type ℓ} ⦃e : Eq A⦄ where
  -- `a in xs`
  abbrev pub contains : List A → A → Bool
  contains [] a = false
  contains (x ∷ xs) a = x == a || contains xs a

  -- `xs.remove(a)`: the first occurrence goes
  abbrev pub remove : List A → A → List A
  remove [] a = []
  remove (x ∷ xs) a = if x == a then xs else x ∷ remove xs a

  abbrev pub Distinct : List A → Type 0
  Distinct [] = Unit
  Distinct (x ∷ xs) = (contains xs x ≡ false) × Distinct xs

  pub contains-append :
      (xs ys : List A) (a : A) → contains (xs ++ ys) a ≡ (contains xs a || contains ys a)
  contains-append [] ys a = refl
  contains-append (x ∷ xs) ys a = ground (arith, contains-append xs ys a)

  pub length-remove :
      (xs : List A) (a : A) → contains xs a ≡ true → suc (length (remove xs a)) ≡ length xs
  length-remove [] a h = ground arith
  length-remove (x ∷ xs) a h = ground (arith, length-remove xs a)

  pub contains-remove_le :
      (xs : List A) (a b : A) → contains (remove xs a) b ≡ true → contains xs b ≡ true
  contains-remove_le [] a b h = h
  contains-remove_le (x ∷ xs) a b h = ground (arith, contains-remove_le xs a b)

  pub contains-remove_ne :
      (xs : List A) (a b : A) → (a == b) ≡ false → contains (remove xs a) b ≡ contains xs b
  contains-remove_ne [] a b h = refl
  contains-remove_ne (x ∷ xs) a b h =
      ground (arith, contains-remove_ne xs a b, ==_iff x a, ==_iff a b, ==_iff x b)

  pub contains-remove_self : (xs : List A) (a : A) → Distinct xs → contains (remove xs a) a ≡ false
  contains-remove_self [] a h = refl
  contains-remove_self (x ∷ xs) a h = ground (arith, contains-remove_self xs a h.1, ==_iff x a)

  pub Distinct-remove : (xs : List A) (a : A) → Distinct xs → Distinct (remove xs a)
  Distinct-remove [] a h = tt
  Distinct-remove (x ∷ xs) a h = elim (Bool-cases (x == a)) [
    | inl p ↦ ground arith
    | inr p ↦ ground (arith, Distinct-remove xs a h.1, contains-remove_le xs a x)
  ]

  pub Distinct-snoc :
      (xs : List A) (a : A) → Distinct xs → contains xs a ≡ false → Distinct (xs ++ a ∷ [])
  Distinct-snoc [] a d h = (refl, tt)
  Distinct-snoc (x ∷ xs) a d h = (
    ground (arith, contains-append xs (a ∷ []) x, ==_iff a x, ==_iff x a),
    Distinct-snoc xs a d.1 (ground arith),
  )

  pub length-remove_le : (xs : List A) (a : A) → length (remove xs a) ≤ length xs
  length-remove_le [] a = omega arith
  length-remove_le (x ∷ xs) a = ground (arith, length-remove_le xs a)
