-- ===== src/Database/Memory.antt =====
-- A client over lists: what is asked of a database can be met, and the model runs on it.
use expenseflow.Common.{
  ◌≡◌, refl, Bool, true, false, Option, none, some, List, [], ◌∷◌, ◌++◌, if◌then◌else◌, any, keep,
  find, find-some, count, map_where, In, All, inl, inr, ◌⊎◌, ◌↔◌, subst, arith, Bool-cases,
  insert_by, sort_by,
}
use expenseflow.Database.Clients.{Client, IsClient}

module _ {A : Type 0} (p : A → Bool) where
  pub find-none-All : (xs : List A) → find p xs ≡ none → All (λ x. p x ≡ false) xs
  find-none-All [] e = tt
  find-none-All (y ∷ xs) e = ground (arith, find-none-All xs)

  pub keep_sound : (xs : List A) (x : A) → In x (keep p xs) → In x xs × (p x ≡ true)
  keep_sound [] x m = absurd m
  keep_sound (y ∷ xs) x m = ground (arith, keep_sound xs x)

  pub keep_complete : (xs : List A) (x : A) → In x xs → p x ≡ true → In x (keep p xs)
  keep_complete [] x m h = m
  keep_complete (y ∷ xs) x m h = ground (arith, keep_complete xs x)

module _ {A : Type 0} (before : A → A → Bool) where
  In-insert_by : (a x : A) (ys : List A) → In a (insert_by before x ys) ↔ ((a ≡ x) ⊎ In a ys)
  unfolding insert_by
  In-insert_by a x [] = ground arith
  In-insert_by a x (y ∷ ys) = ground (arith, In-insert_by a x ys)

  In-sort_by : (a : A) (xs : List A) → In a (sort_by before xs) ↔ In a xs
  unfolding sort_by
  In-sort_by a [] = ground arith
  In-sort_by a (x ∷ xs) = ground (arith, In-sort_by a xs, In-insert_by a x (sort_by before xs))

abbrev pub first : {A : Type 0} → List A → Option A
first [] = none
first (x ∷ xs) = some x

first-some : {A : Type 0} (xs : List A) (x : A) → first xs ≡ some x → In x xs
first-some [] x e = absurd (cc)
first-some (y ∷ xs) x e = inl (cc)

first-none : {A : Type 0} (xs : List A) → first xs ≡ none → xs ≡ []
first-none [] e = refl
first-none (y ∷ xs) e = absurd (cc)

abbrev memory_find_many : {A : Type 0} → (A → A → Bool) → (A → Bool) → List A → List A
memory_find_many before p rows = sort_by before (keep p rows)

abbrev pub memory : Client
memory = record {
  find_first = find;
  find_first_by = λ before p rows. first (memory_find_many before p rows);
  find_many = memory_find_many;
  update_many = λ p change rows. (map_where p change rows, count p rows);
  delete_many = λ p rows. keep (λ row. if p row then false else true) rows;
  create = λ clash row rows. if any (clash row) rows then none else some (rows ++ row ∷ []);
}

module _ {A : Type 0} (before : A → A → Bool) (p : A → Bool) (rows : List A) where
  many_sound : (row : A) → In row (memory_find_many before p rows) → In row rows × (p row ≡ true)
  many_sound row m = keep_sound p rows row ((In-sort_by before row (keep p rows)).0 m)

  many_complete : (row : A) → In row rows → p row ≡ true → In row (memory_find_many before p rows)
  many_complete row m h = (In-sort_by before row (keep p rows)).1 (keep_complete p rows row m h)

  many_none : memory_find_many before p rows ≡ [] → All (λ row. p row ≡ false) rows
  many_none e = none_of rows (λ row m h. subst (In row) e (many_complete row m h))
    where
      none_of : (xs : List A) → ((x : A) → In x xs → p x ≡ true → ⊥) → All (λ x. p x ≡ false) xs
      none_of [] h = tt
      none_of (x ∷ xs) h = (
        elim (Bool-cases (p x)) [ inl e ↦ absurd (h x (inl refl) e) | inr e ↦ e ],
        none_of xs (λ y m. h y (inr m)),
      )

pub memory-IsClient : IsClient memory
memory-IsClient = record {
  find_first_some = find-some;
  find_first_none = find-none-All;
  find_first_by_some = λ before p rows row e. many_sound before p rows row (first-some _ row e);
  find_first_by_none = λ before p rows e. many_none before p rows (first-none _ e);
  find_many_sound = many_sound;
  find_many_complete = many_complete;
  update_many_lem = λ p change rows. refl;
  delete_many_lem = λ p rows. refl;
  create_lem = λ clash row rows. refl;
}
