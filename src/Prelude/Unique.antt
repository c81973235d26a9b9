-- ===== src/Prelude/Unique.antt =====
-- Tables with a unique key: `p` holds of one row at most, so a statement with a further condition
-- `q` is about that row.
use Prim.Native.Nat.{ℕ, ◌+◌, ◌≤◌}
use mathlib.Core.Path.{◌≡◌, refl}
use mathlib.Core.Bool.{Bool, false, not, ◌&&◌}
use mathlib.Core.Option.{some}
use mathlib.Core.List.{List, [], ◌∷◌}
use native.Mathlib.Omega.{arith}
use hyperfixation_core.Prelude.Tests.{if◌then◌else◌}
use hyperfixation_core.Prelude.Table.{find_where, update_where, count_where, any_where, sum_where}

module _ {ℓ} {A : Type ℓ} (p q : A → Bool) where
  -- The rows of the key that meet the further condition.
  abbrev both : A → Bool
  both x = p x && q x

  pub any_where-absent : (xs : List A) → count_where p xs ≡ 0 → any_where both xs ≡ false
  unfolding count_where any_where
  any_where-absent [] h = refl
  any_where-absent (x ∷ xs) h = ground (arith, any_where-absent xs)

  count_where-absent : (xs : List A) → count_where p xs ≡ 0 → count_where both xs ≡ 0
  unfolding count_where
  count_where-absent [] h = refl
  count_where-absent (x ∷ xs) h = ground (arith, count_where-absent xs)

  pub count_where-both_le : (xs : List A) → count_where both xs ≤ count_where p xs
  unfolding count_where
  count_where-both_le [] = omega arith
  count_where-both_le (x ∷ xs) = ground (arith, count_where-both_le xs)

  pub any_where_unique :
      (xs : List A) (r : A)
      → count_where p xs ≤ 1
      → find_where p xs ≡ some r
      → any_where both xs ≡ q r
  unfolding count_where any_where find_where
  any_where_unique [] r single found = ground arith
  any_where_unique (x ∷ xs) r single found =
      ground (arith, any_where_unique xs r, any_where-absent xs)

  pub count_where_unique :
      (xs : List A) (r : A)
      → count_where p xs ≤ 1
      → find_where p xs ≡ some r
      → count_where both xs ≡ (if q r then 1 else 0)
  unfolding count_where find_where
  count_where_unique [] r single found = ground arith
  count_where_unique (x ∷ xs) r single found =
      ground (arith, count_where_unique xs r, count_where-absent xs)

  pub find_where-update_unique :
      (f : A → A)
      → ((x : A) → p (f x) ≡ p x)
      → (xs : List A) (r : A) → find_where p xs ≡ some r
      → find_where p (update_where both f xs) ≡ some (if q r then f r else r)
  unfolding find_where update_where
  find_where-update_unique f same [] r found = ground arith
  find_where-update_unique f same (x ∷ xs) r found =
      ground (arith, same x, find_where-update_unique f same xs r)

module _ {ℓ} {A : Type ℓ} (p : A → Bool) (v : A → ℕ) where
  sum_where-absent :
      (q : A → Bool) (f : A → A) (xs : List A)
      → count_where p xs ≡ 0
      → sum_where q v (update_where p f xs) ≡ sum_where q v xs
  unfolding count_where sum_where update_where
  sum_where-absent q f [] h = refl
  sum_where-absent q f (x ∷ xs) h = ground (arith, sum_where-absent q f xs)

  -- What a sum over a table becomes when the row of a unique key is rewritten.
  pub sum_where-update :
      (q : A → Bool) (f : A → A) (xs : List A) (r : A)
      → count_where p xs ≤ 1
      → find_where p xs ≡ some r
      → sum_where q v (update_where p f xs) + (if q r then v r else 0)
        ≡ sum_where q v xs + (if q (f r) then v (f r) else 0)
  unfolding count_where sum_where update_where find_where
  sum_where-update q f [] r single found = ground arith
  sum_where-update q f (x ∷ xs) r single found =
      ground (arith, sum_where-update q f xs r, sum_where-absent q f xs)

module _ {ℓ} {A : Type ℓ} (own p : A → Bool) (v : A → ℕ) where
  -- Leaving out a key that no row has leaves out nothing.
  pub sum_where-without_none :
      (xs : List A)
      → count_where own xs ≡ 0
      → sum_where (λ x. p x && not (own x)) v xs ≡ sum_where p v xs
  unfolding count_where sum_where
  sum_where-without_none [] h = refl
  sum_where-without_none (x ∷ xs) h = ground (arith, sum_where-without_none xs)

  -- Leaving out the row of a unique key leaves out its own value.
  pub sum_where-without :
      (xs : List A) (r : A)
      → count_where own xs ≤ 1
      → find_where own xs ≡ some r
      → sum_where (λ x. p x && not (own x)) v xs + (if p r then v r else 0) ≡ sum_where p v xs
  unfolding count_where sum_where find_where
  sum_where-without [] r single found = ground arith
  sum_where-without (x ∷ xs) r single found =
      ground (arith, sum_where-without xs r, sum_where-without_none xs)
