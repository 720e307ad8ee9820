-- ===== src/Prelude/Filter.antt =====
-- What filtering a list keeps.
use Prim.Native.Nat.{◌≤◌}
use mathlib.Core.Path.{◌≡◌, refl}
use mathlib.Core.Logic.{inl, inr}
use mathlib.Core.Bool.{Bool, ◌&&◌}
use mathlib.Core.List.{List, [], ◌∷◌}
use native.Mathlib.Omega.{arith}
use agent_graph_studio.Prelude.Tests.{Bool-cases}
use agent_graph_studio.Prelude.Equality.{Eq, ◌==◌, ==_iff, ==_refl}
use agent_graph_studio.Prelude.Lists.{length, filter_list, contains, Distinct}

module _ {ℓ} {A : Type ℓ} ⦃e : Eq A⦄ where
  pub contains-filter_list :
      (p : A → Bool) (xs : List A) (x : A) → contains (filter_list p xs) x ≡ (contains xs x && p x)
  contains-filter_list p [] x = refl
  contains-filter_list p (y ∷ ys) x = elim (Bool-cases (y == x)) [
    | inl e ↦ rw ((==_iff y x).0 e) (ground (arith, contains-filter_list p ys x, ==_refl x))
    | inr e ↦ ground (arith, contains-filter_list p ys x)
  ]

  pub Distinct-filter_list :
      (p : A → Bool) (xs : List A) → Distinct xs → Distinct (filter_list p xs)
  Distinct-filter_list p [] d = tt
  Distinct-filter_list p (x ∷ xs) d =
      ground (arith, Distinct-filter_list p xs d.1, contains-filter_list p xs x)

pub length-filter_list_le {ℓ} :
    {A : Type ℓ} (p : A → Bool) (xs : List A) → length (filter_list p xs) ≤ length xs
length-filter_list_le p [] = omega arith
length-filter_list_le p (x ∷ xs) = ground (arith, length-filter_list_le p xs)
