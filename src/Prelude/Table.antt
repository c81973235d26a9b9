-- ===== src/Prelude/Table.antt =====
-- A table is the list of its rows. The statements of the source select, update, count and sum the
-- rows that a Boolean condition picks out.
use Prim.Native.Nat.{ℕ, suc, ◌+◌, ◌≤◌}
use mathlib.Core.Path.{◌≡◌, refl, subst}
use mathlib.Core.Logic.{inl, inr}
use mathlib.Core.Bool.{Bool, true, false, ◌||◌}
use mathlib.Core.Option
use mathlib.Core.Option.{Option, none, some}
use mathlib.Core.List.{List, [], ◌∷◌, ◌++◌}
use native.Mathlib.Omega.{arith}
use hyperfixation_core.Prelude.Tests.{if◌then◌else◌, Bool-cases}

module _ {ℓ} {A : Type ℓ} where
  abbrev pub length : List A → ℕ
  length [] = 0
  length (x ∷ xs) = suc (length xs)

  -- The first row that meets the condition.
  unfoldable pub find_where : (A → Bool) → List A → Option A
  find_where p [] = none
  find_where p (x ∷ xs) = if p x then some x else find_where p xs

  -- UPDATE ... SET f WHERE p.
  unfoldable pub update_where : (A → Bool) → (A → A) → List A → List A
  update_where p f [] = []
  update_where p f (x ∷ xs) = (if p x then f x else x) ∷ update_where p f xs

  -- The `rowCount` of such a statement.
  unfoldable pub count_where : (A → Bool) → List A → ℕ
  count_where p [] = 0
  count_where p (x ∷ xs) = (if p x then 1 else 0) + count_where p xs

  -- SELECT ... WHERE p.
  unfoldable pub select_where : (A → Bool) → List A → List A
  select_where p [] = []
  select_where p (x ∷ xs) = let rest = select_where p xs in if p x then x ∷ rest else rest

  -- COALESCE(SUM(v), 0) ... WHERE p.
  unfoldable pub sum_where : (A → Bool) → (A → ℕ) → List A → ℕ
  sum_where p v [] = 0
  sum_where p v (x ∷ xs) = (if p x then v x else 0) + sum_where p v xs

  unfoldable pub any_where : (A → Bool) → List A → Bool
  any_where p [] = false
  any_where p (x ∷ xs) = p x || any_where p xs

  abbrev pub All {κ} : (A → Type κ) → List A → Type κ
  All P [] = Unit
  All P (x ∷ xs) = P x × All P xs

module _ {ℓ} {A : Type ℓ} (p : A → Bool) where
  pub find_where-append :
      (xs ys : List A)
      → find_where p (xs ++ ys)
        ≡ elim (find_where p xs) [ none ↦ find_where p ys | some x ↦ some x ]
  unfolding find_where
  find_where-append [] ys = refl
  find_where-append (x ∷ xs) ys = ground (arith, find_where-append xs ys)

  pub find_where_holds : (xs : List A) (x : A) → find_where p xs ≡ some x → p x ≡ true
  unfolding find_where
  find_where_holds [] x h = ground arith
  find_where_holds (y ∷ ys) x h = ground (arith, find_where_holds ys x)

  pub count_where-append :
      (xs ys : List A) → count_where p (xs ++ ys) ≡ count_where p xs + count_where p ys
  unfolding count_where
  count_where-append [] ys = omega arith
  count_where-append (x ∷ xs) ys = omega (arith, count_where-append xs ys)

  pub find_where-none_count : (xs : List A) → find_where p xs ≡ none → count_where p xs ≡ 0
  unfolding find_where count_where
  find_where-none_count [] h = refl
  find_where-none_count (x ∷ xs) h = ground (arith, find_where-none_count xs)

  pub find_where-some_count :
      (xs : List A) (x : A) → find_where p xs ≡ some x → 1 ≤ count_where p xs
  unfolding find_where count_where
  find_where-some_count [] x h = ground arith
  find_where-some_count (y ∷ ys) x h = ground (arith, find_where-some_count ys x)

  pub any_where-false_count : (xs : List A) → any_where p xs ≡ false → count_where p xs ≡ 0
  unfolding any_where count_where
  any_where-false_count [] h = refl
  any_where-false_count (x ∷ xs) h = ground (arith, any_where-false_count xs)

  pub any_where-append :
      (xs ys : List A) → any_where p (xs ++ ys) ≡ (any_where p xs || any_where p ys)
  unfolding any_where
  any_where-append [] ys = refl
  any_where-append (x ∷ xs) ys = ground (arith, any_where-append xs ys)

  pub any_where-update :
      (q : A → Bool) (f : A → A)
      → ((x : A) → p (f x) ≡ p x)
      → (xs : List A) → any_where p (update_where q f xs) ≡ any_where p xs
  unfolding any_where update_where
  any_where-update q f same [] = refl
  any_where-update q f same (x ∷ xs) = ground (arith, same x, any_where-update q f same xs)

  pub any_where-find : (xs : List A) (x : A) → find_where p xs ≡ some x → any_where p xs ≡ true
  unfolding any_where find_where
  any_where-find [] x h = ground arith
  any_where-find (y ∷ ys) x h = ground (arith, any_where-find ys x)

  pub find_where-none_any : (xs : List A) → find_where p xs ≡ none → any_where p xs ≡ false
  unfolding any_where find_where
  find_where-none_any [] h = refl
  find_where-none_any (x ∷ xs) h = ground (arith, find_where-none_any xs)

  pub any_where-false_find : (xs : List A) → any_where p xs ≡ false → find_where p xs ≡ none
  unfolding any_where find_where
  any_where-false_find [] h = refl
  any_where-false_find (x ∷ xs) h = ground (arith, any_where-false_find xs)

  pub All-find {κ} :
      (P : A → Type κ) (xs : List A) (x : A) → All P xs → find_where p xs ≡ some x → P x
  unfolding find_where
  All-find P [] x a h = ground arith
  All-find P (y ∷ ys) x a h = elim (Bool-cases (p y)) [
    | inl e ↦ subst P (ground arith) a.0
    | inr e ↦ All-find P ys x a.1 (ground arith)
  ]

  module _ (f : A → A) (same : (x : A) → p (f x) ≡ p x) where
    pub find_where-update_self :
        (xs : List A) → find_where p (update_where p f xs) ≡ Option.map f (find_where p xs)
    unfolding find_where update_where
    find_where-update_self [] = refl
    find_where-update_self (x ∷ xs) = ground (arith, same x, find_where-update_self xs)

    pub count_where-update_self :
        (xs : List A) → count_where p (update_where p f xs) ≡ count_where p xs
    unfolding count_where update_where
    count_where-update_self [] = refl
    count_where-update_self (x ∷ xs) = ground (arith, same x, count_where-update_self xs)

  -- A read by a key that the update keeps finds the same row, updated if it was hit.
  pub find_where-update :
      (q : A → Bool) (f : A → A)
      → ((x : A) → q (f x) ≡ q x)
      → (xs : List A)
      → find_where q (update_where p f xs)
        ≡ Option.map (λ x. if p x then f x else x) (find_where q xs)
  unfolding find_where update_where
  find_where-update q f same [] = refl
  find_where-update q f same (x ∷ xs) = ground (arith, same x, find_where-update q f same xs)

  -- A read that no updated row meets, before or after, is unchanged.
  pub find_where-update_ne :
      (q : A → Bool) (f : A → A)
      → ((x : A) → p x ≡ true → q x ≡ false)
      → ((x : A) → p x ≡ true → q (f x) ≡ false)
      → (xs : List A) → find_where q (update_where p f xs) ≡ find_where q xs
  unfolding find_where update_where
  find_where-update_ne q f before after [] = refl
  find_where-update_ne q f before after (x ∷ xs) =
      ground (arith, before x, after x, find_where-update_ne q f before after xs)

  pub count_where-update_ne :
      (q : A → Bool) (f : A → A)
      → ((x : A) → p x ≡ true → q (f x) ≡ q x)
      → (xs : List A) → count_where q (update_where p f xs) ≡ count_where q xs
  unfolding count_where update_where
  count_where-update_ne q f same [] = refl
  count_where-update_ne q f same (x ∷ xs) =
      ground (arith, same x, count_where-update_ne q f same xs)

  -- An update keeps a property of every row that the updated rows keep.
  pub All-update {κ} :
      (P : A → Type κ) (f : A → A)
      → ((x : A) → p x ≡ true → P x → P (f x))
      → (xs : List A) → All P xs
      → All P (update_where p f xs)
  unfolding update_where
  All-update P f keep [] a = a
  All-update P f keep (x ∷ xs) a = (
    elim (Bool-cases (p x)) [ inl e ↦ rw e (keep x e a.0) | inr e ↦ rw e a.0 ],
    All-update P f keep xs a.1,
  )

  pub update_where-none :
      (f : A → A) (xs : List A) → find_where p xs ≡ none → update_where p f xs ≡ xs
  unfolding find_where update_where
  update_where-none f [] h = refl
  update_where-none f (x ∷ xs) h = ground (arith, update_where-none f xs)

module _ {ℓ κ} {A : Type ℓ} (P : A → Type κ) where
  pub All-append : (xs ys : List A) → All P xs → All P ys → All P (xs ++ ys)
  All-append [] ys h k = k
  All-append (x ∷ xs) ys h k = (h.0, All-append xs ys h.1 k)

module _ {ℓ} {A : Type ℓ} (p : A → Bool) (v : A → ℕ) where
  pub sum_where-append :
      (xs ys : List A) → sum_where p v (xs ++ ys) ≡ sum_where p v xs + sum_where p v ys
  unfolding sum_where
  sum_where-append [] ys = omega arith
  sum_where-append (x ∷ xs) ys = omega (arith, sum_where-append xs ys)

  -- A weaker condition picks out at least as much.
  pub sum_where_mono :
      (q : A → Bool)
      → ((x : A) → p x ≡ true → q x ≡ true)
      → (xs : List A) → sum_where p v xs ≤ sum_where q v xs
  unfolding sum_where
  sum_where_mono q weaker [] = omega arith
  sum_where_mono q weaker (x ∷ xs) = ground (arith, weaker x, sum_where_mono q weaker xs)
