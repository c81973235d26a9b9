-- ===== src/Resolution/Weight.antt =====
-- How many attempts the rows of a source have left, the measure of the batches of
-- packages/core/src/resolution.ts.
use hyperfixation_core.Prelude.{
  ℕ, ◌+◌, ◌-◌, String, Bool, true, false, List, [], ◌∷◌, ◌≡◌, refl, some, none, arith,
  if◌then◌else◌, eqb, eqb→eq, eqb_refl, zero, suc, All, All-update, find_where, update_where,
  update_where-none, find_where-update_ne, select_where, Bool-cases, inl, inr, subst,
}
use hyperfixation_core.Resolution.{SourceRecord, is_id, is_scanned, take, scan}

unfoldable pub weight : String → ℕ → SourceRecord → ℕ
weight source max r = if is_scanned source max r then max - r.attempts else 0

unfoldable pub total : String → ℕ → List SourceRecord → ℕ
total source max [] = 0
total source max (r ∷ rs) = weight source max r + total source max rs

-- No row has the id.
abbrev pub Fresh : ℕ → List SourceRecord → Type 0
Fresh id rs = All (λ r. eqb r.id id ≡ false) rs

-- The primary key.
abbrev pub Unique : List SourceRecord → Type 0
Unique [] = Unit
Unique (r ∷ rs) = Fresh r.id rs × Unique rs

Fresh-find : (id : ℕ) (rs : List SourceRecord) → Fresh id rs → find_where (is_id id) rs ≡ none
unfolding find_where
Fresh-find id [] h = refl
Fresh-find id (r ∷ rs) h = ground (arith, Fresh-find id rs h.1)

Fresh-update :
    (id other : ℕ) (f : SourceRecord → SourceRecord)
    → ((r : SourceRecord) → (f r).id ≡ r.id)
    → (rs : List SourceRecord) → Fresh id rs
    → Fresh id (update_where (is_id other) f rs)
Fresh-update id other f same rs h =
    All-update (is_id other) (λ r. eqb r.id id ≡ false) f (λ r e k. rw (same r) k) rs h

module _ (id : ℕ) (f : SourceRecord → SourceRecord)
    (same : (r : SourceRecord) → (f r).id ≡ r.id) where
  pub update-Unique : (rs : List SourceRecord) → Unique rs → Unique (update_where (is_id id) f rs)
  unfolding update_where
  update-Unique [] u = tt
  update-Unique (r ∷ rs) u = elim (Bool-cases (is_id id r)) [
    | inl e ↦ rw e (rw (same r) (Fresh-update r.id id f same rs u.0), update-Unique rs u.1)
    | inr e ↦ rw e (Fresh-update r.id id f same rs u.0, update-Unique rs u.1)
  ]

  -- What an update of one row makes of the measure.
  pub total-update :
      (source : String) (max : ℕ) (rs : List SourceRecord) (r : SourceRecord)
      → Unique rs
      → find_where (is_id id) rs ≡ some r
      → total source max (update_where (is_id id) f rs) + weight source max r
        ≡ total source max rs + weight source max (f r)
  unfolding find_where update_where total
  total-update source max [] r u h = ground arith
  total-update source max (x ∷ xs) r u h = elim (Bool-cases (is_id id x)) [
    | inl e ↦
        let rest =
          update_where-none (is_id id) f xs
            (Fresh-find id xs (subst (λ k. Fresh k xs) (eqb→eq x.id id e) u.0)) in
        let same_row : x ≡ r = ground arith in rw (e, rest, same_row) (omega arith)
    | inr e ↦ rw e (omega (arith, total-update source max xs r u.1 (rw e at h)))
  ]

  pub find-update :
      (other : SourceRecord) (rs : List SourceRecord)
      → eqb other.id id ≡ false
      → find_where (is_id other.id) (update_where (is_id id) f rs) ≡ find_where (is_id other.id) rs
  find-update other rs ne =
      find_where-update_ne (is_id id) (is_id other.id) f (λ x e. ground arith)
        (λ x e. ground (arith, same x)) rs

-- What holds of the rows of a scan.
abbrev pub Found : List SourceRecord → List SourceRecord → Type 0
Found rs rows = All (λ row. find_where (is_id row.id) rs ≡ some row) rows

module _ (source : String) (max : ℕ) where
  abbrev pub Scanned : List SourceRecord → Type 0
  Scanned rows = All (λ row. is_scanned source max row ≡ true) rows

Fresh-select :
    (p : SourceRecord → Bool) (id : ℕ) (rs : List SourceRecord)
    → Fresh id rs
    → Fresh id (select_where p rs)
unfolding select_where
Fresh-select p id [] h = tt
Fresh-select p id (r ∷ rs) h = elim (Bool-cases (p r)) [
  | inl e ↦ rw e (h.0, Fresh-select p id rs h.1)
  | inr e ↦ rw e (Fresh-select p id rs h.1)
]

Unique-select :
    (p : SourceRecord → Bool) (rs : List SourceRecord) → Unique rs → Unique (select_where p rs)
unfolding select_where
Unique-select p [] u = tt
Unique-select p (r ∷ rs) u = elim (Bool-cases (p r)) [
  | inl e ↦ rw e (Fresh-select p r.id rs u.0, Unique-select p rs u.1)
  | inr e ↦ rw e (Unique-select p rs u.1)
]

All-take :
    (P : SourceRecord → Type 0) (n : ℕ) (rs : List SourceRecord) → All P rs → All P (take n rs)
All-take P zero rs a = tt
All-take P (suc n) [] a = tt
All-take P (suc n) (r ∷ rs) a = (a.0, All-take P n rs a.1)

Unique-take : (n : ℕ) (rs : List SourceRecord) → Unique rs → Unique (take n rs)
Unique-take zero rs u = tt
Unique-take (suc n) [] u = tt
Unique-take (suc n) (r ∷ rs) u =
    (All-take (λ x. eqb x.id r.id ≡ false) n rs u.0, Unique-take n rs u.1)

All-select :
    (P : SourceRecord → Type 0) (p : SourceRecord → Bool) (rs : List SourceRecord)
    → All P rs
    → All P (select_where p rs)
unfolding select_where
All-select P p [] a = tt
All-select P p (r ∷ rs) a = elim (Bool-cases (p r)) [
  | inl e ↦ rw e (a.0, All-select P p rs a.1)
  | inr e ↦ rw e (All-select P p rs a.1)
]

Found-push :
    (x : SourceRecord) (rs rows : List SourceRecord)
    → Fresh x.id rows
    → Found rs rows
    → Found (x ∷ rs) rows
unfolding find_where
Found-push x rs [] u h = tt
Found-push x rs (row ∷ rows) u h = (ground arith, Found-push x rs rows u.1 h.1)

Found-all : (rs : List SourceRecord) → Unique rs → Found rs rs
unfolding find_where
Found-all [] u = tt
Found-all (r ∷ rs) u = (ground (arith, eqb_refl r.id), Found-push r rs rs u.0 (Found-all rs u.1))

selected :
    (p : SourceRecord → Bool) (rs : List SourceRecord) → All (λ r. p r ≡ true) (select_where p rs)
unfolding select_where
selected p [] = tt
selected p (r ∷ rs) = elim (Bool-cases (p r)) [
  | inl e ↦ rw e (e, selected p rs)
  | inr e ↦ rw e (selected p rs)
]

module _ (source : String) (max limit : ℕ) (rs : List SourceRecord) (u : Unique rs) where
  pub scan-Found : Found rs (scan source max limit rs)
  unfolding scan
  scan-Found =
      All-take (λ row. find_where (is_id row.id) rs ≡ some row) limit
        (select_where (is_scanned source max) rs)
        (All-select (λ row. find_where (is_id row.id) rs ≡ some row) (is_scanned source max) rs
          (Found-all rs u))

  pub scan-Unique : Unique (scan source max limit rs)
  unfolding scan
  scan-Unique =
      Unique-take limit (select_where (is_scanned source max) rs)
        (Unique-select (is_scanned source max) rs u)

pub scan-Scanned :
    (source : String) (max limit : ℕ) (rs : List SourceRecord)
    → Scanned source max (scan source max limit rs)
unfolding scan
scan-Scanned source max limit rs =
    All-take (λ row. is_scanned source max row ≡ true) limit
      (select_where (is_scanned source max) rs) (selected (is_scanned source max) rs)
