-- ===== src/Resolution/Progress.antt =====
-- Why the loop over resolveBatch of packages/core/src/resolution.ts ends.
use hyperfixation_core.Prelude.{
  ℕ, zero, suc, ◌+◌, ◌≤◌, ◌<◌, String, Bool, true, false, Option, none, some, List, [], ◌∷◌, ◌≡◌,
  refl, sym, ap, ◌∙◌, arith, if◌then◌else◌, eqb, ltb, update_where, length, Bool-cases, inl, inr,
  subst, ◌⊎◌, ◌||◌,
}
use hyperfixation_core.Resolution.{
  SourceRecord, RecordLink, Resolver, Store, ok, threw, Count, created_one, reviewed,
  ResolveBatchResult, is_id, is_scanned, to_linked, to_review, to_error, moved, exact_values,
  existing_link, leader_of, scan,
}
use hyperfixation_core.Resolution.Row.{Settled, settle_row}
use hyperfixation_core.Resolution.Batch.{
  Batch, count_up, release, process_row, process, group_key, started, resolve_rows, resolve_batch,
}
use hyperfixation_core.Resolution.Writes.{written, Writes, settle_row-Writes}
use hyperfixation_core.Resolution.Weight.{
  weight, total, Unique, Fresh, Found, Scanned, update-Unique, total-update, find-update,
  scan-Found, scan-Unique, scan-Scanned,
}

module _ (source : String) (max : ℕ) where
  weight-linked :
      (r : SourceRecord)
      → is_scanned source max r ≡ true
      → 1 + weight source max (to_linked r) ≤ weight source max r
  unfolding weight
  weight-linked r h = ground arith

  weight-review :
      (r : SourceRecord)
      → is_scanned source max r ≡ true
      → weight source max (to_review r) ≤ weight source max r
  unfolding weight
  weight-review r h = ground arith

  weight-error :
      (e : String) (r : SourceRecord)
      → is_scanned source max r ≡ true
      → 1 + weight source max (to_error e r) ≤ weight source max r
  unfolding weight
  weight-error e r h = ground arith

  weight-written :
      (count : Count) (r : SourceRecord) (result : ResolveBatchResult)
      → is_scanned source max r ≡ true
      → moved (count_up count result) + weight source max (written count r)
        ≤ moved result + weight source max r
  weight-written Count.linked_exact r result h = omega (arith, weight-linked r h)
  weight-written Count.linked_fuzzy r result h = omega (arith, weight-linked r h)
  weight-written created_one r result h = omega (arith, weight-linked r h)
  weight-written Count.updated r result h = omega (arith, weight-linked r h)
  weight-written reviewed r result h = omega (arith, weight-review r h)

  -- What one row does to the table and to the counters.
  pub record RowStep {W : Type 0} (row : SourceRecord) (b b' : Batch W) : Type 0 where
    pub change : SourceRecord → SourceRecord
    pub same_id : (r : SourceRecord) → (change r).id ≡ r.id
    pub records : b'.store.records ≡ update_where (is_id row.id) change b.store.records
    pub pays :
        moved b'.result + weight source max (change row) ≤ moved b.result + weight source max row

  written-id : (count : Count) (r : SourceRecord) → (written count r).id ≡ r.id
  written-id Count.linked_exact r = refl
  written-id Count.linked_fuzzy r = refl
  written-id created_one r = refl
  written-id Count.updated r = refl
  written-id reviewed r = refl

  release-RowStep :
      {W : Type 0} (row : SourceRecord) (key : Option (List String)) (b : Batch W) (t : Settled W)
      → is_scanned source max row ≡ true
      → Writes row.id b.store t
      → RowStep row b (release row key b t)
  unfolding release
  release-RowStep row key b (ok (count, (o, s))) h w = record {
    change = written count;
    same_id = written-id count;
    records = w;
    pays = weight-written count row b.result h;
  }
  release-RowStep row key b (threw e) h w = record {
    change = to_error e;
    same_id = λ r. refl;
    records = refl;
    pays = omega (arith, weight-error e row h);
  }

  pub process_row-RowStep :
      {W : Type 0} (resolver : Resolver W) (linked : List RecordLink) (row : SourceRecord)
      (b : Batch W)
      → is_scanned source max row ≡ true
      → RowStep row b (process_row resolver linked row b)
  unfolding process_row
  process_row-RowStep resolver linked row b h =
      let existing = existing_link row.id linked in
      let key = group_key resolver row existing in
      let keys = exact_values row.payload resolver.exact_keys in
      release-RowStep row key b
        (settle_row resolver row existing keys (leader_of key b.groups) b.store) h
        (settle_row-Writes resolver row existing keys (leader_of key b.groups) b.store)

  Found-after :
      {W : Type 0} (row : SourceRecord) (b b' : Batch W) (step : RowStep row b b')
      (rows : List SourceRecord)
      → Fresh row.id rows
      → Found b.store.records rows
      → Found b'.store.records rows
  Found-after row b b' step [] u f = tt
  Found-after row b b' step (x ∷ xs) u f = (
    rw step.records (find-update row.id step.change step.same_id x b.store.records u.0 ∙ f.0),
    Found-after row b b' step xs u.1 f.1,
  )

  -- Every counted row but the reviewed ones takes something from what is left to do.
  process-progress :
      {W : Type 0} (resolver : Resolver W) (linked : List RecordLink) (rows : List SourceRecord)
      (b : Batch W)
      → Unique b.store.records
      → Unique rows
      → Found b.store.records rows
      → Scanned source max rows
      → (moved (process resolver linked rows b).result
            + total source max (process resolver linked rows b).store.records
          ≤ moved b.result + total source max b.store.records)
        × Unique (process resolver linked rows b).store.records
  unfolding process
  process-progress resolver linked [] b ub ur f s = (omega arith, ub)
  process-progress resolver linked (row ∷ rows) b ub ur f s =
      let b' = process_row resolver linked row b in
      let step = process_row-RowStep resolver linked row b s.0 in
      let after : total source max b'.store.records + weight source max row
          ≡ total source max b.store.records + weight source max (step.change row) =
        ap (λ rs. total source max rs + weight source max row) step.records
        ∙ total-update row.id step.change step.same_id source max b.store.records row ub f.0 in
      let unique : Unique b'.store.records =
        subst Unique (sym step.records)
          (update-Unique row.id step.change step.same_id b.store.records ub) in
      let rest =
        process-progress resolver linked rows b' unique ur.1
          (Found-after row b b' step rows ur.0 f.1) s.1 in
      let paid = step.pays in (omega (arith, rest.0, after, paid), rest.1)

-- What a batch returns and leaves behind.
pub record BatchEnd {W : Type 0} (source : String) (max : ℕ) (s : Store W) (r : ResolveBatchResult)
    (s' : Store W) : Type 0 where
  pub paid : moved r + total source max s'.records ≤ total source max s.records
  pub unique : Unique s'.records
  pub more_moved : (r.done ≡ true) ⊎ (1 ≤ moved r)

done_or_moved : (b : Bool) (n : ℕ) → ((b || eqb n 0) ≡ true) ⊎ (1 ≤ n)
done_or_moved b zero = inl (ground arith)
done_or_moved b (suc n) = inr (omega arith)

rows-BatchEnd :
    {W : Type 0} (resolver : Resolver W) (source : String) (limit max : ℕ) (s : Store W)
    (rows : List SourceRecord)
    → Unique s.records
    → Unique rows
    → Found s.records rows
    → Scanned source max rows
    → BatchEnd source max s
        (resolve_rows resolver limit s rows).0
        (resolve_rows resolver limit s rows).1
unfolding resolve_rows
rows-BatchEnd resolver source limit max s [] u ur f sc = record {
  paid = omega arith;
  unique = u;
  more_moved = inl refl;
}
rows-BatchEnd resolver source limit max s (row ∷ rest) u ur f sc =
    let b = started (length (row ∷ rest)) s in
    let end = process-progress source max resolver s.links (row ∷ rest) b u ur f sc in
    record {
      paid = omega (arith, end.0);
      unique = end.1;
      more_moved =
          done_or_moved (ltb (length (row ∷ rest)) limit)
            (moved (process resolver s.links (row ∷ rest) b).result);
    }

pub resolve_batch-BatchEnd :
    {W : Type 0} (resolver : Resolver W) (source : String) (limit max : ℕ) (s : Store W)
    → Unique s.records
    → BatchEnd source max s
        (resolve_batch resolver source limit max s).0
        (resolve_batch resolver source limit max s).1
unfolding resolve_batch
resolve_batch-BatchEnd resolver source limit max s u =
    rows-BatchEnd resolver source limit max s (scan source max limit s.records) u
      (scan-Unique source max limit s.records u) (scan-Found source max limit s.records u)
      (scan-Scanned source max limit s.records)

less_left :
    (r : ResolveBatchResult) (a b fuel : ℕ)
    → (r.done ≡ true) ⊎ (1 ≤ moved r)
    → r.done ≡ false
    → moved r + a ≤ b
    → b < suc fuel
    → a < fuel
less_left r a b fuel (inl done) e p h = cc
less_left r a b fuel (inr some_moved) e p h = omega arith

-- The loop of a caller of resolveBatch, `while (!done)`; `none` where the fuel ran out.
unfoldable pub resolve_until_done :
    {W : Type 0} → Resolver W → String → ℕ → ℕ → ℕ → Store W → Option (Store W)
resolve_until_done resolver source limit max zero s = none
resolve_until_done resolver source limit max (suc fuel) s =
    let (r, s') = resolve_batch resolver source limit max s in
    let rest = resolve_until_done resolver source limit max fuel s' in
    if r.done then some s' else rest

-- The loop over the batches ends, whatever the resolver does to the app's own table and however
-- often it throws: it runs at most one batch more than the rows of the source have attempts left.
pub resolution_ends :
    {W : Type 0} (resolver : Resolver W) (source : String) (limit max fuel : ℕ) (s : Store W)
    → Unique s.records
    → total source max s.records < fuel
    → (s' : Store W) × (resolve_until_done resolver source limit max fuel s ≡ some s')
unfolding resolve_until_done
resolution_ends resolver source limit max zero s u h = elim h [ ]
resolution_ends resolver source limit max (suc fuel) s u h =
    let (r, s') = resolve_batch resolver source limit max s in
    let end = resolve_batch-BatchEnd resolver source limit max s u in
    elim (Bool-cases r.done) [
      | inl e ↦ (s', rw e refl)
      | inr e ↦ rw e (
          resolution_ends resolver source limit max fuel s' end.unique (
            less_left r (total source max s'.records) (total source max s.records) fuel
              end.more_moved e end.paid h))
    ]
