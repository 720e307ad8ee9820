-- ===== src/Storage/Table.antt =====
-- What the stores use of SQL, over a table as a list of rows: SELECT by primary key, INSERT with its
-- uniqueness error, UPDATE, DELETE and the upsert.
use agent_graph_studio.Prelude.{
  if◌then◌else◌, Bool-cases, is_some, Eq, ◌==◌, ==_iff, ==_refl, string_eq, any, filter_list, find,
  ◌≡◌, refl, sym, subst, ◌∙◌, ◌↔◌, ◌⊎◌, inl, inr, Bool, true, false, not, ◌||◌, Option, none, some,
  List, [], ◌∷◌, ◌++◌, arith,
}

abbrev pub map_option {ℓ κ} : {A : Type ℓ} {B : Type κ} → (A → B) → Option A → Option B
map_option f none = none
map_option f (some a) = some (f a)

-- The row that an upsert leaves, from the row before.
abbrev pub merged {ℓ} : {Row : Type ℓ} → (Row → Row) → Row → Option Row → Row
merged f r none = r
merged f r (some q) = f q

module _ {K Row : Type 0} ⦃e : Eq K⦄ (key : Row → K) where
  -- `SELECT … WHERE key = ?`
  unfoldable pub select : List Row → K → Option Row
  select t k = find (λ r. key r == k) t

  -- `INSERT`; `none` is the error of a key that is there
  unfoldable pub insert : List Row → Row → Option (List Row)
  insert t r = if any (λ q. key q == key r) t then none else some (t ++ r ∷ [])

  -- `UPDATE … WHERE key = ?`
  unfoldable pub update : List Row → K → (Row → Row) → List Row
  update [] k f = []
  update (r ∷ t) k f = (if key r == k then f r else r) ∷ update t k f

  -- `DELETE … WHERE key = ?`
  unfoldable pub delete : List Row → K → List Row
  delete t k = filter_list (λ r. not (key r == k)) t

  -- `cursor.rowcount > 0` of that DELETE
  unfoldable pub deletes : List Row → K → Bool
  deletes t k = any (λ r. key r == k) t

  -- `INSERT … ON CONFLICT(key) DO UPDATE`
  unfoldable pub upsert : List Row → Row → (Row → Row) → List Row
  unfolding update
  upsert t r f = if any (λ q. key q == key r) t then update t (key r) f else t ++ r ∷ []

  -- Every key stands in one row.
  abbrev pub IsKeyed : List Row → Type 0
  IsKeyed [] = Unit
  IsKeyed (r ∷ t) = (any (λ q. key q == key r) t ≡ false) × IsKeyed t

  any-snoc : (p : Row → Bool) (t : List Row) (r : Row) → any p (t ++ r ∷ []) ≡ (any p t || p r)
  any-snoc p [] r = ground arith
  any-snoc p (q ∷ t) r = ground (arith, any-snoc p t r)

  find-snoc :
      (p : Row → Bool) (t : List Row) (r : Row)
      → find p (t ++ r ∷ []) ≡ (if any p t then find p t else if p r then some r else none)
  find-snoc p [] r = refl
  find-snoc p (q ∷ t) r = ground (arith, find-snoc p t r)

  any-find : (p : Row → Bool) (t : List Row) → any p t ≡ is_some (find p t)
  any-find p [] = refl
  any-find p (r ∷ t) = ground (arith, any-find p t)

  deletes-select : (t : List Row) (k : K) → deletes t k ≡ is_some (select t k)
  unfolding deletes select
  deletes-select t k = any-find (λ r. key r == k) t

  pub select-insert :
      (t t' : List Row) (r : Row) (k : K)
      → insert t r ≡ some t'
      → select t' k ≡ (if key r == k then some r else select t k)
  unfolding insert select
  select-insert t t' r k h = elim (Bool-cases (key r == k)) [
    | inl same ↦ rw same (
        subst (λ j. find (λ q. key q == j) t' ≡ some r) ((==_iff (key r) k).0 same)
          (ground (arith, find-snoc (λ q. key q == key r) t r, ==_refl (key r))))
    | inr other ↦ ground (arith, find-snoc (λ q. key q == k) t r, any-find (λ q. key q == k) t)
  ]

  pub insert-none :
      (t : List Row) (r : Row) → (insert t r ≡ none) ↔ (is_some (select t (key r)) ≡ true)
  unfolding insert select
  insert-none t r = ground (arith, any-find (λ q. key q == key r) t)

  pub insert-some :
      (t : List Row) (r : Row) → select t (key r) ≡ none → insert t r ≡ some (t ++ r ∷ [])
  unfolding insert select
  insert-some t r h = ground (arith, any-find (λ q. key q == key r) t)

  key_flip : (p q : Row) → (key p == key q) ≡ (key q == key p)
  key_flip p q = ground (arith, ==_iff (key p) (key q), ==_iff (key q) (key p))

  IsKeyed-snoc :
      (t : List Row) (r : Row)
      → IsKeyed t
      → any (λ q. key q == key r) t ≡ false
      → IsKeyed (t ++ r ∷ [])
  IsKeyed-snoc [] r v h = (refl, tt)
  IsKeyed-snoc (p ∷ t) r v h = (
    ground (arith, any-snoc (λ q. key q == key p) t r, v.0, key_flip p r),
    IsKeyed-snoc t r v.1 (ground arith),
  )

  pub insert-IsKeyed : (t t' : List Row) (r : Row) → IsKeyed t → insert t r ≡ some t' → IsKeyed t'
  unfolding insert
  insert-IsKeyed t t' r v h =
      let e : t' ≡ t ++ r ∷ [] = ground arith in
      subst IsKeyed (sym e) (IsKeyed-snoc t r v (ground arith))

  any-delete_le :
      (p : Row → Bool) (t : List Row) (k : K) → any p t ≡ false → any p (delete t k) ≡ false
  unfolding delete
  any-delete_le p [] k h = refl
  any-delete_le p (r ∷ t) k h = ground (arith, any-delete_le p t k)

  pub delete-IsKeyed : (t : List Row) (k : K) → IsKeyed t → IsKeyed (delete t k)
  unfolding delete
  delete-IsKeyed [] k v = tt
  delete-IsKeyed (r ∷ t) k v =
      ground (arith, delete-IsKeyed t k v.1, any-delete_le (λ q. key q == key r) t k)

  pub select-delete :
      (t : List Row) (k j : K) → select (delete t k) j ≡ (if k == j then none else select t j)
  unfolding select delete
  select-delete [] k j = ground arith
  select-delete (r ∷ t) k j =
      ground (arith, select-delete t k j, ==_iff (key r) k, ==_iff (key r) j, ==_iff k j)

  module _ (f : Row → Row) (same_key : (r : Row) → key (f r) ≡ key r) where
    any-update :
        (t : List Row) (k j : K) → any (λ q. key q == j) (update t k f) ≡ any (λ q. key q == j) t
    unfolding update
    any-update [] k j = refl
    any-update (r ∷ t) k j = ground (arith, any-update t k j, same_key r)

    pub update-IsKeyed : (t : List Row) (k : K) → IsKeyed t → IsKeyed (update t k f)
    unfolding update
    update-IsKeyed [] k v = tt
    update-IsKeyed (r ∷ t) k v = elim (Bool-cases (key r == k)) [
      | inl h ↦ rw h (
        subst (λ (x : K). any (λ q. key q == x) (update t k f) ≡ false) (sym (same_key r))
            (any-update t k (key r) ∙ v.0),
        update-IsKeyed t k v.1,
      )
      | inr h ↦ rw h (any-update t k (key r) ∙ v.0, update-IsKeyed t k v.1)
    ]

    pub select-update :
        (t : List Row) (k j : K)
        → select (update t k f) j ≡ (if k == j then map_option f (select t j) else select t j)
    unfolding select update
    select-update [] k j = ground arith
    select-update (r ∷ t) k j =
        ground
          (arith, select-update t k j, same_key r, ==_iff (key r) k, ==_iff (key r) j, ==_iff k j)

    select-upsert_on :
        (t : List Row) (r : Row) (j : K) (o : Option Row)
        → select t (key r) ≡ o
        → any (λ q. key q == key r) t ≡ is_some o
        → select (upsert t r f) j ≡ (if key r == j then some (merged f r o) else select t j)
    unfolding upsert
    select-upsert_on t r j none h k =
        rw k (select-insert t (t ++ r ∷ []) r j (unfold insert in rw k))
    select-upsert_on t r j (some q) h k =
        rw k (select-update t (key r) j ∙ same (Bool-cases (key r == j)))
      where
        same :
            ((key r == j) ≡ true) ⊎ ((key r == j) ≡ false)
            → (if key r == j then map_option f (select t j) else select t j)
              ≡ (if key r == j then some (f q) else select t j)
        same (inr x) = rw x
        same (inl x) =
            let at : select t j ≡ some q =
              subst (λ (i : K). select t i ≡ some q) ((==_iff (key r) j).0 x) h in
            rw (x, at)

    pub select-upsert :
        (t : List Row) (r : Row) (j : K)
        → select (upsert t r f) j
          ≡ (if key r == j then some (merged f r (select t (key r))) else select t j)
    select-upsert t r j =
        select-upsert_on t r j (select t (key r)) refl
          (unfold select in any-find (λ q. key q == key r) t)

    pub upsert-IsKeyed : (t : List Row) (r : Row) → IsKeyed t → IsKeyed (upsert t r f)
    unfolding upsert
    upsert-IsKeyed t r v = elim (Bool-cases (any (λ q. key q == key r) t)) [
      | inl h ↦ rw h (update-IsKeyed t (key r) v)
      | inr h ↦ rw h (IsKeyed-snoc t r v h)
    ]
