-- ===== src/Resolution/Dice.antt =====
-- packages/core/src/resolution.ts: bigrams and bigramDice. A similarity is kept as an exact fraction.
use Prim.Native.Char.{code}
use Prim.Native.String.{[], ◌∷◌}
use hyperfixation_core.Prelude.{
  ℕ, ◌+◌, ◌-◌, ◌*◌, ◌/◌, ◌%◌, ◌≤◌, String, Bool, true, List, [], ◌∷◌, ◌≡◌, ◌&&◌, ◌==◌,
  if◌then◌else◌, ltb, leb, eqb, arith,
}

-- The numerator and the denominator.
abbrev pub Ratio : Type 0
Ratio = ℕ × ℕ

unfoldable pub ratio_lt : Ratio → Ratio → Bool
ratio_lt (a, b) (c, d) = ltb (a * d) (c * b)

-- The code units that a JavaScript text is indexed by: two for a character above U+FFFF.
unfoldable pub units : String → List ℕ
units [] = []
units (c ∷ s) =
    let rest = units s in
    if ltb (code c) 65536
    then code c ∷ rest
    else (55296 + (code c - 65536) / 1024) ∷ (56320 + (code c - 65536) % 1024) ∷ rest

abbrev pub Gram : Type 0
Gram = ℕ × ℕ

abbrev pub same_gram : Gram → Gram → Bool
same_gram (a, b) (c, d) = eqb a c && eqb b d

abbrev pub Grams : Type 0
Grams = List (Gram × ℕ)

-- `grams.get(gram) ?? 0`.
unfoldable pub gram_count : Gram → Grams → ℕ
gram_count g [] = 0
gram_count g ((h, n) ∷ m) = let rest = gram_count g m in if same_gram h g then n else rest

-- `grams.set(gram, (grams.get(gram) ?? 0) + 1)`.
unfoldable pub add_gram : Gram → Grams → Grams
add_gram g [] = (g, 1) ∷ []
add_gram g ((h, n) ∷ m) =
    let rest = add_gram g m in if same_gram h g then (h, n + 1) ∷ m else (h, n) ∷ rest

-- The loop of bigrams from some position on.
unfoldable pub bigrams_from : List ℕ → Grams → Grams
bigrams_from [] m = m
bigrams_from (a ∷ []) m = m
bigrams_from (a ∷ b ∷ us) m = bigrams_from (b ∷ us) (add_gram (a, b) m)

unfoldable pub bigrams : String → Grams
unfolding bigrams_from units
bigrams value = bigrams_from (units value) []

unfoldable pub sum_counts : Grams → ℕ
sum_counts [] = 0
sum_counts ((g, n) ∷ m) = n + sum_counts m

abbrev min : ℕ → ℕ → ℕ
min a b = if leb a b then a else b

unfoldable pub shared_counts : Grams → Grams → ℕ
shared_counts left [] = 0
shared_counts left ((g, n) ∷ m) = min n (gram_count g left) + shared_counts left m

unfoldable pub bigram_dice : String → String → Ratio
bigram_dice a b =
    if a == b
    then (1, 1)
    else (let total = sum_counts (bigrams a) + sum_counts (bigrams b) in
        if eqb total 0 then (0, 1) else (2 * shared_counts (bigrams a) (bigrams b), total))

-- How often a gram stands among the keys.
occurs : Gram → Grams → ℕ
occurs g [] = 0
occurs g ((h, n) ∷ m) = (if same_gram h g then 1 else 0) + occurs g m

occurs-add :
    (g h : Gram) (m : Grams)
    → occurs h (add_gram g m) ≤ (if same_gram g h then 1 else 0) + occurs h m
unfolding occurs add_gram
occurs-add (a, b) (c, d) [] = ground arith
occurs-add (a, b) (c, d) (((x, y), n) ∷ m) = ground (arith, occurs-add (a, b) (c, d) m)

occurs-present :
    (g h : Gram) (m : Grams)
    → same_gram g h ≡ true
    → 1 ≤ occurs h m
    → occurs h (add_gram g m) ≡ occurs h m
unfolding occurs add_gram
occurs-present (a, b) (c, d) [] e p = ground arith
occurs-present (a, b) (c, d) (((x, y), n) ∷ m) e p = ground (arith, occurs-present (a, b) (c, d) m)

abbrev Keyed : Grams → Type 0
Keyed m = (g : Gram) → occurs g m ≤ 1

add_gram-Keyed : (g : Gram) (m : Grams) → Keyed m → Keyed (add_gram g m)
add_gram-Keyed g m k h = ground (arith, occurs-add g h m, occurs-present g h m, k h)

bigrams_from-Keyed : (us : List ℕ) (m : Grams) → Keyed m → Keyed (bigrams_from us m)
unfolding bigrams_from
bigrams_from-Keyed [] m k = k
bigrams_from-Keyed (a ∷ []) m k = k
bigrams_from-Keyed (a ∷ b ∷ us) m k =
    bigrams_from-Keyed (b ∷ us) (add_gram (a, b) m) (add_gram-Keyed (a, b) m k)

bigrams-Keyed : (s : String) → Keyed (bigrams s)
unfolding bigrams occurs
bigrams-Keyed s = bigrams_from-Keyed (units s) [] (λ g. omega arith)

-- What the keys of one map have in another.
weighed : Grams → Grams → ℕ
weighed left [] = 0
weighed left ((g, n) ∷ m) = gram_count g left + weighed left m

weighed-cons :
    (g : Gram) (n : ℕ) (left m : Grams)
    → weighed ((g, n) ∷ left) m ≤ occurs g m * n + weighed left m
unfolding weighed occurs gram_count
weighed-cons g n left [] = omega arith
weighed-cons (a, b) n left (((x, y), k) ∷ m) = grind (arith, weighed-cons (a, b) n left m)

weighed-empty : (m : Grams) → weighed [] m ≤ 0
unfolding weighed gram_count
weighed-empty [] = omega arith
weighed-empty ((g, n) ∷ m) = omega (arith, weighed-empty m)

weighed-le : (left m : Grams) → Keyed m → weighed left m ≤ sum_counts left
unfolding sum_counts
weighed-le [] m k = weighed-empty m
weighed-le ((g, n) ∷ left) m k = grind (arith, weighed-cons g n left m, weighed-le left m k, k g)

shared-le-weighed : (left m : Grams) → shared_counts left m ≤ weighed left m
unfolding shared_counts weighed
shared-le-weighed left [] = omega arith
shared-le-weighed left ((g, n) ∷ m) = ground (arith, shared-le-weighed left m)

shared-le-sum : (left m : Grams) → shared_counts left m ≤ sum_counts m
unfolding shared_counts sum_counts
shared-le-sum left [] = omega arith
shared-le-sum left ((g, n) ∷ m) = ground (arith, shared-le-sum left m)

-- The similarity of two texts lies in [0, 1], and its denominator is not zero.
pub dice_bounds :
    (a b : String) → ((bigram_dice a b).0 ≤ (bigram_dice a b).1) × (1 ≤ (bigram_dice a b).1)
unfolding bigram_dice
dice_bounds a b = ground (
  arith,
  shared-le-weighed (bigrams a) (bigrams b),
  shared-le-sum (bigrams a) (bigrams b),
  weighed-le (bigrams a) (bigrams b) (bigrams-Keyed b),
)
