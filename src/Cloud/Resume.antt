-- ===== src/Cloud/Resume.antt =====
-- What a run over the steps of packages/cli/src/new-cloud.ts does with the steps that an earlier run
-- recorded.
use hyperfixation_core.Prelude.{
  ℕ, ◌<◌, String, Bool, true, false, not, Option, none, some, List, [], ◌∷◌, map, ◌≡◌, refl, ap,
  ◌∙◌, arith, All, select_where, Bool-cases, inl, inr, eqb,
}
use hyperfixation_core.Cloud.{StepName, position, AppState, is_done}
use hyperfixation_core.Cloud.Runner.{
  Machine, CloudContext, Step, finished, threw, RunStepsResult, loop, Loop, recorded, skipping,
  running, after_run, conclude, run_in_order, run_steps, assert_step_order, assert_envs_current,
  assert_rotation_applied,
}
use hyperfixation_core.Cloud.Order.{After, Ordered, Frames, mark_done_other, mark_done_self}

skipping-finished :
    (n : StepName) (l : Loop) (ran skipped : List StepName) (c : CloudContext)
    → skipping n l ≡ (finished (ran, skipped), c)
    → (rest : List StepName) × ((l ≡ (finished (ran, rest), c)) × (skipped ≡ n ∷ rest))
skipping-finished n (finished (ran', rest), c') ran skipped c h =
    (rest, (ground arith, ground arith))
skipping-finished n (threw e, c') ran skipped c h = absurd (ground arith)

running-finished :
    (n : StepName) (l : Loop) (ran skipped : List StepName) (c : CloudContext)
    → running n l ≡ (finished (ran, skipped), c)
    → (rest : List StepName) × ((l ≡ (finished (rest, skipped), c)) × (ran ≡ n ∷ rest))
running-finished n (finished (rest, skipped'), c') ran skipped c h =
    (rest, (ground arith, ground arith))
running-finished n (threw e, c') ran skipped c h = absurd (ground arith)

after_run-finished :
    (m : Machine) (n : StepName) (rest : CloudContext → Loop) (r : Option String × CloudContext)
    (ran skipped : List StepName) (c : CloudContext)
    → after_run m n rest r ≡ (finished (ran, skipped), c)
    → (others : List StepName) × ((rest (recorded m n r.1) ≡ (finished (others, skipped), c))
        × (ran ≡ n ∷ others))
after_run-finished m n rest (none, c') ran skipped c h =
    running-finished n (rest (recorded m n c')) ran skipped c h
after_run-finished m n rest (some e, c') ran skipped c h = absurd (ground arith)

-- The steps of a list that have a record, and those that have none.
abbrev pub with_record : AppState → List Step → List StepName
with_record a ss = map (λ s. s.name) (select_where (λ s. is_done s.name a) ss)

abbrev pub without_record : AppState → List Step → List StepName
without_record a ss = map (λ s. s.name) (select_where (λ s. not (is_done s.name a)) ss)

abbrev Agree : AppState → AppState → List Step → Type 0
Agree a b ss = All (λ t. is_done t.name a ≡ is_done t.name b) ss

select-cong :
    (p q : Step → Bool) (ss : List Step)
    → All (λ t. p t ≡ q t) ss
    → select_where p ss ≡ select_where q ss
unfolding select_where
select-cong p q [] h = refl
select-cong p q (s ∷ ss) h = ground (arith, select-cong p q ss h.1)

not-Agree :
    (a b : AppState) (ss : List Step)
    → Agree a b ss
    → All (λ t. not (is_done t.name a) ≡ not (is_done t.name b)) ss
not-Agree a b [] h = tt
not-Agree a b (s ∷ ss) h = (ap not h.0, not-Agree a b ss h.1)

without_record-cong :
    (a b : AppState) (ss : List Step) → Agree a b ss → without_record a ss ≡ without_record b ss
without_record-cong a b ss h = ap (map (λ s. s.name)) (
    select-cong (λ s. not (is_done s.name a)) (λ s. not (is_done s.name b)) ss (not-Agree a b ss h))

with_record-cong :
    (a b : AppState) (ss : List Step) → Agree a b ss → with_record a ss ≡ with_record b ss
with_record-cong a b ss h =
    ap (map (λ s. s.name)) (select-cong (λ s. is_done s.name a) (λ s. is_done s.name b) ss h)

distinct : (a b : ℕ) → a < b → (eqb b a ≡ false) × (eqb a b ≡ false)
distinct a b h = (ground arith, ground arith)

-- What a step does leaves the records of the later ones.
later-Agree :
    (m : Machine) (s : Step) (c : CloudContext) (ss : List Step)
    → Frames s
    → After (position s.name) ss
    → Agree (recorded m s.name (s.run c).1).state c.state ss
later-Agree m s c [] frame after = tt
later-Agree m s c (t ∷ ss) frame after = (
  mark_done_other m.now s.name t.name (s.run c).1.state
        (distinct (position s.name) (position t.name) after.0).0
      ∙ frame c t.name (distinct (position s.name) (position t.name) after.0).0,
  later-Agree m s c ss frame after.1,
)

-- The later steps leave the record of an earlier one.
loop-keeps :
    (m : Machine) (n : StepName) (ss : List Step) (c : CloudContext) (ran skipped : List StepName)
    (c' : CloudContext)
    → After (position n) ss
    → All Frames ss
    → loop m ss c ≡ (finished (ran, skipped), c')
    → is_done n c'.state ≡ is_done n c.state
unfolding loop
loop-keeps m n [] c ran skipped c' after frames h = ground arith
loop-keeps m n (s ∷ ss) c ran skipped c' after frames h =
    elim (Bool-cases (is_done s.name c.state)) [
      | inl e ↦
          let (rest, (k, e')) =
            skipping-finished s.name (loop m ss c) ran skipped c' (ground arith) in
          loop-keeps m n ss c ran rest c' after.1 frames.1 k
      | inr e ↦
          let (rest, (k, e')) =
            after_run-finished m s.name (loop m ss) (s.run c) ran skipped c' (ground arith) in
          let other = (distinct (position n) (position s.name) after.0).1 in
          loop-keeps m n ss (recorded m s.name (s.run c).1) rest skipped c' after.1 frames.1 k
          ∙ (mark_done_other m.now s.name n (s.run c).1.state other ∙ frames.0 c n other)
    ]

pub record Ran (ss : List Step) (before after : AppState) (ran skipped : List StepName)
    : Type 0 where
  pub ran_missing : ran ≡ without_record before ss
  pub skipped_done : skipped ≡ with_record before ss
  pub all_done : All (λ s. is_done s.name after ≡ true) ss

pub loop-Ran :
    (m : Machine) (ss : List Step) (c : CloudContext) (ran skipped : List StepName)
    (c' : CloudContext)
    → Ordered ss
    → All Frames ss
    → loop m ss c ≡ (finished (ran, skipped), c')
    → Ran ss c.state c'.state ran skipped
unfolding loop select_where
loop-Ran m [] c ran skipped c' order frames h = record {
  ran_missing = ground arith;
  skipped_done = ground arith;
  all_done = tt;
}
loop-Ran m (s ∷ ss) c ran skipped c' order frames h = elim (Bool-cases (is_done s.name c.state)) [
  | inl e ↦
      let (rest, (k, e')) = skipping-finished s.name (loop m ss c) ran skipped c' (ground arith) in
      let ih = loop-Ran m ss c ran rest c' order.1 frames.1 k in
      record {
        ran_missing = rw e ih.ran_missing;
        skipped_done = e' ∙ rw e (ap (λ names. s.name ∷ names) ih.skipped_done);
        all_done = (loop-keeps m s.name ss c ran rest c' order.0 frames.1 k ∙ e, ih.all_done);
      }
  | inr e ↦
      let (rest, (k, e')) =
        after_run-finished m s.name (loop m ss) (s.run c) ran skipped c' (ground arith) in
      let c1 = recorded m s.name (s.run c).1 in
      let ih = loop-Ran m ss c1 rest skipped c' order.1 frames.1 k in
      let agree = later-Agree m s c ss frames.0 order.0 in
      record {
        ran_missing =
            e'
            ∙ rw e (
                ap (λ names. s.name ∷ names)
                  (ih.ran_missing ∙ without_record-cong c1.state c.state ss agree));
        skipped_done = rw e (ih.skipped_done ∙ with_record-cong c1.state c.state ss agree);
        all_done = (
          loop-keeps m s.name ss c1 rest skipped c' order.0 frames.1 k
              ∙ mark_done_self m.now s.name (s.run c).1.state,
          ih.all_done,
        );
      }
]

-- What a run that returned has checked at its end.
pub record Concluded (m : Machine) (cleared ran skipped : List StepName) (c : CloudContext)
    (r : RunStepsResult) : Type 0 where
  pub result : r ≡ record { ran = ran; skipped = skipped; invalidated = cleared }
  pub envs : assert_envs_current m c.state ≡ none
  pub rotation : assert_rotation_applied m c ≡ none

pub conclude-finished :
    (m : Machine) (cleared : List StepName) (l : Loop) (r : RunStepsResult) (c : CloudContext)
    → conclude m cleared l ≡ (finished r, c)
    → (ran : List StepName) × ((skipped : List StepName) × ((l ≡ (finished (ran, skipped), c))
          × Concluded m cleared ran skipped c r))
unfolding conclude
conclude-finished m cleared (threw e, c') r c h = absurd (ground arith)
conclude-finished m cleared (finished (ran, skipped), c') r c h = (
  ran,
  (
    skipped,
    (ground arith, record { result = ground arith; envs = ground arith; rotation = ground arith }),
  ),
)

pub run_steps-finished :
    (m : Machine) (steps : List Step) (c c' : CloudContext) (r : RunStepsResult)
    → run_steps m steps c ≡ (finished r, c')
    → (assert_step_order steps ≡ none) × (run_in_order m steps c ≡ (finished r, c'))
unfolding run_steps
run_steps-finished m steps c c' r h = (ground arith, ground arith)
