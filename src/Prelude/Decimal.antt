-- ===== src/Prelude/Decimal.antt =====
-- `String(n)`: a number in decimal digits, and the proof that two numbers never print alike.
use Prim.Native.Nat.{ℕ, zero, suc, ◌+◌, ◌-◌, ◌*◌, ◌/◌, ◌%◌, ◌<◌}
use Prim.Native.Char.{Char, code}
use Prim.Native.String.{String, [], ◌∷◌}
use mathlib.Core.Path.{◌≡◌, refl, sym, ap, ◌∙◌}
use mathlib.Core.Logic.{inl, inr}
use native.Mathlib.Omega.{arith}
use mathlib.Core.Bool.{true}
use hyperfixation_core.Prelude.Tests.{ltb, if◌then◌else◌, Bool-cases}
use hyperfixation_core.Prelude.Split.{all_chars, is_not}

digit : ℕ → Char
digit zero = "0"
digit (suc zero) = "1"
digit (suc (suc zero)) = "2"
digit (suc (suc (suc zero))) = "3"
digit (suc (suc (suc (suc zero)))) = "4"
digit (suc (suc (suc (suc (suc zero))))) = "5"
digit (suc (suc (suc (suc (suc (suc zero)))))) = "6"
digit (suc (suc (suc (suc (suc (suc (suc zero))))))) = "7"
digit (suc (suc (suc (suc (suc (suc (suc (suc zero)))))))) = "8"
digit _ = "9"

code-digit : (d : ℕ) → d < 10 → code (digit d) - 48 ≡ d
unfolding digit
code-digit zero h = refl
code-digit (suc zero) h = refl
code-digit (suc (suc zero)) h = refl
code-digit (suc (suc (suc zero))) h = refl
code-digit (suc (suc (suc (suc zero)))) h = refl
code-digit (suc (suc (suc (suc (suc zero))))) h = refl
code-digit (suc (suc (suc (suc (suc (suc zero)))))) h = refl
code-digit (suc (suc (suc (suc (suc (suc (suc zero))))))) h = refl
code-digit (suc (suc (suc (suc (suc (suc (suc (suc zero)))))))) h = refl
code-digit (suc (suc (suc (suc (suc (suc (suc (suc (suc zero))))))))) h = refl
code-digit (suc (suc (suc (suc (suc (suc (suc (suc (suc (suc d)))))))))) h = absurd (omega arith)

digits : ℕ → ℕ → String → String
digits zero n acc = acc
digits (suc fuel) n acc =
    let acc' = digit (n % 10) ∷ acc in
    let rest = digits fuel (n / 10) acc' in if ltb n 10 then acc' else rest

unfoldable pub decimal : ℕ → String
unfolding digits digit
decimal n = digits (suc n) n []

digit_code : (d : ℕ) → is_not ":" (digit d) ≡ true
unfolding digit
digit_code zero = refl
digit_code (suc zero) = refl
digit_code (suc (suc zero)) = refl
digit_code (suc (suc (suc zero))) = refl
digit_code (suc (suc (suc (suc zero)))) = refl
digit_code (suc (suc (suc (suc (suc zero))))) = refl
digit_code (suc (suc (suc (suc (suc (suc zero)))))) = refl
digit_code (suc (suc (suc (suc (suc (suc (suc zero))))))) = refl
digit_code (suc (suc (suc (suc (suc (suc (suc (suc zero)))))))) = refl
digit_code (suc (suc (suc (suc (suc (suc (suc (suc (suc d))))))))) = refl

digits_plain :
    (fuel n : ℕ) (acc : String)
    → all_chars (is_not ":") acc ≡ true
    → all_chars (is_not ":") (digits fuel n acc) ≡ true
unfolding digits all_chars
digits_plain zero n acc h = h
digits_plain (suc fuel) n acc h =
    ground (arith, digit_code (n % 10), digits_plain fuel (n / 10) (digit (n % 10) ∷ acc))

-- No numeral has a colon.
pub decimal_plain : (n : ℕ) → all_chars (is_not ":") (decimal n) ≡ true
unfolding decimal all_chars
decimal_plain n = digits_plain (suc n) n [] refl

value : String → ℕ → ℕ
value [] a = a
value (c ∷ s) a = value s (a * 10 + (code c - 48))

value-digits : (fuel n : ℕ) (acc : String) → n < fuel → value (digits fuel n acc) 0 ≡ value acc n
unfolding digits value
value-digits zero n acc h = elim h [ ]
value-digits (suc fuel) n acc h = elim (Bool-cases (ltb n 10)) [
  | inl e ↦ rw e (ap (value acc) (ground (arith, code-digit (n % 10))))
  | inr e ↦ rw e (
      value-digits fuel (n / 10) (digit (n % 10) ∷ acc) (ground arith)
      ∙ ap (value acc) (ground (arith, code-digit (n % 10))))
]

pub decimal_inj : (m n : ℕ) → decimal m ≡ decimal n → m ≡ n
unfolding decimal value
decimal_inj m n e =
    sym (value-digits (suc m) m [] (omega arith))
    ∙ (ap (λ s. value s 0) e ∙ value-digits (suc n) n [] (omega arith))
