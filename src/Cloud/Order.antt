-- ===== src/Cloud/Order.antt =====
-- The order of the steps of packages/cli/src/new-cloud.ts, and what a step leaves of the records of
-- the other steps.
use hyperfixation_core.Prelude.{
  ℕ, ◌<◌, String, Bool, true, false, not, List, [], ◌∷◌, ◌≡◌, refl, ◌∙◌, none, arith, inl, inr, eqb,
  All, any_where, any_where-append, any_where-update, select_where, Bool-cases,
}
use hyperfixation_core.Cloud.{
  StepName, position, same_step, AppState, is_record, is_done, mark_done, clear_done,
}
use hyperfixation_core.Cloud.Runner.{CloudContext, Step, assert_step_order}

abbrev pub After : ℕ → List Step → Type 0
After n ss = All (λ t. n < position t.name) ss

-- Every step stands before all the later ones.
abbrev pub Ordered : List Step → Type 0
Ordered [] = Unit
Ordered (s ∷ ss) = After (position s.name) ss × Ordered ss

After-mono : (m n : ℕ) (ss : List Step) → m < n → After n ss → After m ss
After-mono m n [] h a = a
After-mono m n (s ∷ ss) h a = (omega arith, After-mono m n ss h a.1)

pub assert_step_order-Ordered : (ss : List Step) → assert_step_order ss ≡ none → Ordered ss
unfolding assert_step_order
assert_step_order-Ordered [] h = tt
assert_step_order-Ordered (s ∷ []) h = (tt, tt)
assert_step_order-Ordered (s ∷ t ∷ ss) h =
    let rest = assert_step_order-Ordered (t ∷ ss) (ground arith) in
    let before : position s.name < position t.name = ground arith in
    ((before, After-mono (position s.name) (position t.name) ss before rest.0), rest)

-- A step touches no record but its own.
abbrev pub Frames : Step → Type 0
Frames s =
    (c : CloudContext) (name : StepName)
    → same_step name s.name ≡ false
    → is_done name (s.run c).1.state ≡ is_done name c.state

pub mark_done_other :
    (now : String) (n m : StepName) (s : AppState)
    → same_step m n ≡ false
    → is_done m (mark_done now n s) ≡ is_done m s
unfolding is_done mark_done any_where
mark_done_other now n m s other = elim (Bool-cases (any_where (is_record n) s.steps)) [
  | inl e ↦ rw e (
      any_where-update (is_record m) (is_record n) (λ r. record r { done_at = now }) (λ r. refl)
        s.steps)
  | inr e ↦ rw e (
      any_where-append (is_record m) s.steps (record { step = n; done_at = now } ∷ [])
      ∙ ground arith)
]

pub mark_done_self :
    (now : String) (n : StepName) (s : AppState) → is_done n (mark_done now n s) ≡ true
unfolding is_done mark_done any_where
mark_done_self now n s = elim (Bool-cases (any_where (is_record n) s.steps)) [
  | inl e ↦ rw e (
      any_where-update (is_record n) (is_record n) (λ r. record r { done_at = now }) (λ r. refl)
        s.steps
      ∙ e)
  | inr e ↦ rw e (
      any_where-append (is_record n) s.steps (record { step = n; done_at = now } ∷ [])
      ∙ ground arith)
]

module _ {A : Type 0} (p : A → Bool) where
  removed : (xs : List A) → any_where p (select_where (λ x. not (p x)) xs) ≡ false
  unfolding any_where select_where
  removed [] = refl
  removed (x ∷ xs) = ground (arith, removed xs)

  removed_other :
      (q : A → Bool)
      → ((x : A) → p x ≡ true → q x ≡ false)
      → (xs : List A) → any_where q (select_where (λ x. not (p x)) xs) ≡ any_where q xs
  unfolding any_where select_where
  removed_other q other [] = refl
  removed_other q other (x ∷ xs) = ground (arith, other x, removed_other q other xs)

other_record : (a b c : ℕ) → eqb b a ≡ false → eqb c a ≡ true → eqb c b ≡ false
other_record a b c h k = ground arith

pub clear_done_self : (n : StepName) (s : AppState) → is_done n (clear_done n s) ≡ false
unfolding is_done clear_done
clear_done_self n s = removed (is_record n) s.steps

pub clear_done_other :
    (n m : StepName) (s : AppState)
    → same_step m n ≡ false
    → is_done m (clear_done n s) ≡ is_done m s
unfolding is_done clear_done
clear_done_other n m s other =
    removed_other (is_record n) (is_record m)
      (λ r. other_record (position n) (position m) (position r.step) other) s.steps
