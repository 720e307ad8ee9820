-- ===== src/Connections/Store/Deletion.antt =====
-- backend/connections/store.py: what `delete_connection` leaves of the lookups.
use agent_graph_studio.Prelude.{
  Bool-cases, ◌==◌, ==_iff, string_eq, length, filter_list, length-filter_list_le, find, String,
  ◌≡◌, refl, inl, inr, Bool, true, false, not, ◌&&◌, if◌then◌else◌, Option, none, List, [], ◌∷◌,
  arith, nat_eq, pair_eq, option_eq,
}
use agent_graph_studio.Connections.Store.{
  ConnectionProfile, is_at, get_connection, delete_connection, after,
}
use agent_graph_studio.Connections.Store.Scope.{find-filter_list_other}

-- A filter that takes nothing out changes nothing.
filter_list-all {ℓ} :
    {A : Type ℓ} (p : A → Bool) (xs : List A)
    → length (filter_list p xs) ≡ length xs
    → filter_list p xs ≡ xs
filter_list-all p [] h = refl
filter_list-all p (x ∷ xs) h = ground (arith, filter_list-all p xs, length-filter_list_le p xs)

find-filter_list-none :
    (p q : ConnectionProfile → Bool) (cs : List ConnectionProfile)
    → ((c : ConnectionProfile) → q c ≡ true → p c ≡ false)
    → find p (filter_list q cs) ≡ none
find-filter_list-none p q [] k = refl
find-filter_list-none p q (c ∷ cs) k = ground (arith, find-filter_list-none p q cs k, k c)

after-delete_connection :
    (name : String) (owner : Option String) (cs : List ConnectionProfile)
    → after cs (delete_connection name owner cs)
      ≡ filter_list (λ (c : ConnectionProfile). not (is_at name owner c)) cs
unfolding delete_connection
after-delete_connection name owner cs =
    let rest = filter_list (λ (c : ConnectionProfile). not (is_at name owner c)) cs in
    elim (Bool-cases (length rest == length cs)) [
      | inl h ↦
          rw
            (
              h,
              filter_list-all (λ (c : ConnectionProfile). not (is_at name owner c)) cs
                  ((==_iff (length rest) (length cs)).0 h),
            )
            refl
      | inr h ↦ rw h refl
    ]

-- After a deletion the name and owner that were deleted are looked up in vain, and every other lookup is as
-- before.
pub get_connection-delete_connection :
    (name : String) (owner : Option String) (cs : List ConnectionProfile) (n : String)
    (u : Option String)
    → get_connection n u (after cs (delete_connection name owner cs))
      ≡ (if n == name && u == owner then none else get_connection n u cs)
unfolding get_connection
get_connection-delete_connection name owner cs n u =
    rw (after-delete_connection name owner cs) (elim (Bool-cases (n == name && u == owner)) [
      | inl h ↦ rw h (
          find-filter_list-none (is_at n u) (λ (c : ConnectionProfile). not (is_at name owner c)) cs
            (λ c k. ground (arith, ==_iff n name, ==_iff u owner)))
      | inr h ↦ rw h (
          find-filter_list_other (is_at n u) (λ (c : ConnectionProfile). not (is_at name owner c))
            cs
            (λ c k. ground (
              arith,
              ==_iff c.name n,
              ==_iff c.name name,
              ==_iff n name,
              ==_iff c.user_id u,
              ==_iff c.user_id owner,
              ==_iff u owner,
            )))
    ])
