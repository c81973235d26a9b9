-- ===== src/Resolution/Writes.antt =====
-- A row of the batch of packages/core/src/resolution.ts writes to no source record but its own.
use hyperfixation_core.Prelude.{
  ℕ, String, Option, none, some, List, ◌≡◌, refl, sym, ap, update_where, Bool-cases, inl, inr,
}
use hyperfixation_core.Resolution.Dice.{Ratio}
use hyperfixation_core.Resolution.{
  SourceRecord, RecordLinkMethod, Resolver, Store, Answer, ok, threw, Outcome, found, for_review,
  failed, Count, created_one, updated, reviewed, is_id, to_linked, to_review,
}
use hyperfixation_core.Resolution.Row.{
  Settled, write, link, create_record, update_and_link, link_best, match_fuzzy, resolve_row, follow,
  update_linked, settle_row, needle_of, best_of, exact_hit,
}

-- What a row that ended writes to its own row.
abbrev pub written : Count → SourceRecord → SourceRecord
written reviewed = to_review
written Count.linked_exact = to_linked
written Count.linked_fuzzy = to_linked
written created_one = to_linked
written Count.updated = to_linked

module _ {W : Type 0} where
  -- A settled row writes to no other row.
  abbrev pub Writes : ℕ → Store W → Settled W → Type 0
  Writes id s (threw e) = Unit
  Writes id s (ok (count, (o, s'))) = s'.records ≡ update_where (is_id id) (written count) s.records

  create-Writes :
      (r : Resolver W) (row : SourceRecord) (s : Store W) → Writes row.id s (create_record r row s)
  unfolding create_record link
  create-Writes r row s = go (r.create row.payload s.app)
    where
      go :
          (a : Answer (String × W))
          → Writes row.id s (elim a [
            | threw e ↦ threw e
            | ok (id, app) ↦ ok (
              created_one,
              (
                some (found id),
                link r row.id id RecordLinkMethod.created none (record s { app = app }),
              ),
            )
          ])
      go (threw e) = tt
      go (ok (id, app)) = refl

  update_and_link-Writes :
      (r : Resolver W) (row : SourceRecord) (id : String) (m : RecordLinkMethod) (c : Option Ratio)
      (count : Count) (s : Store W)
      → written count ≡ to_linked
      → Writes row.id s (update_and_link r row id m c count s)
  unfolding update_and_link link
  update_and_link-Writes r row id m c count s e = go (r.update id row.payload s.app)
    where
      go :
          (a : Answer W)
          → Writes row.id s (elim a [
            | threw x ↦ threw x
            | ok app ↦ ok (count, (some (found id), link r row.id id m c (record s { app = app })))
          ])
      go (threw x) = tt
      go (ok app) = ap (λ f. update_where (is_id row.id) f s.records) (sym e)

  update_linked-Writes :
      (r : Resolver W) (row : SourceRecord) (id : String) (s : Store W)
      → Writes row.id s (update_linked r row id s)
  unfolding update_linked
  update_linked-Writes r row id s = go (r.update id row.payload s.app)
    where
      go :
          (a : Answer W)
          → Writes row.id s (elim a [
            | threw e ↦ threw e
            | ok app ↦ ok (updated, (none, write row.id to_linked (record s { app = app })))
          ])
      go (threw x) = tt
      go (ok app) = refl

  link_best-Writes :
      (r : Resolver W) (row : SourceRecord) (b : Option (String × Ratio)) (s : Store W)
      → Writes row.id s (link_best r row b s)
  unfolding link_best
  link_best-Writes r row none s = create-Writes r row s
  link_best-Writes r row (some (id, score)) s = elim (Bool-cases (r.reviews score)) [
    | inl e ↦ rw e refl
    | inr e ↦ rw e (
        update_and_link-Writes r row id RecordLinkMethod.fuzzy (some score) Count.linked_fuzzy s
          refl)
  ]

  match_fuzzy-Writes :
      (r : Resolver W) (row : SourceRecord) (s : Store W) → Writes row.id s (match_fuzzy r row s)
  unfolding match_fuzzy
  match_fuzzy-Writes r row s = go (needle_of r row.payload)
    where
      go :
          (n : Option String)
          → Writes row.id s (elim n [
            | none ↦ create_record r row s
            | some needle ↦ link_best r row (best_of needle (r.candidates needle s.app) none) s
          ])
      go none = create-Writes r row s
      go (some needle) = link_best-Writes r row (best_of needle (r.candidates needle s.app) none) s

  resolve_row-Writes :
      (r : Resolver W) (row : SourceRecord) (keys : Option (List String)) (s : Store W)
      → Writes row.id s (resolve_row r row keys s)
  unfolding resolve_row
  resolve_row-Writes r row keys s = go (exact_hit r keys s.app)
    where
      go :
          (n : Option String)
          → Writes row.id s (elim n [
            | some id ↦
                update_and_link r row id RecordLinkMethod.exact (some (1, 1)) Count.linked_exact s
            | none ↦ match_fuzzy r row s
          ])
      go none = match_fuzzy-Writes r row s
      go (some id) =
          update_and_link-Writes r row id RecordLinkMethod.exact (some (1, 1)) Count.linked_exact s
            refl

  follow-Writes :
      (r : Resolver W) (row : SourceRecord) (o : Outcome) (s : Store W)
      → Writes row.id s (follow r row o s)
  unfolding follow link
  follow-Writes r row (found id) s = refl
  follow-Writes r row for_review s = refl
  follow-Writes r row failed s = tt

  pub settle_row-Writes :
      (r : Resolver W) (row : SourceRecord) (existing : Option String) (keys : Option (List String))
      (led : Option Outcome) (s : Store W)
      → Writes row.id s (settle_row r row existing keys led s)
  unfolding settle_row
  settle_row-Writes r row (some id) keys led s = update_linked-Writes r row id s
  settle_row-Writes r row none keys (some o) s = follow-Writes r row o s
  settle_row-Writes r row none keys none s = resolve_row-Writes r row keys s
