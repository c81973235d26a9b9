-- ===== src/Resolution/Keyless.antt =====
-- packages/core/src/resolution.ts with a resolver that has no exact keys (line 193 provides for
-- one): exactValues is then the empty list of every row, and so they are one group.
use mathlib.Core.List.{append-nil, append_assoc}
use hyperfixation_core.Prelude.{
  ℕ, String, none, some, List, [], ◌∷◌, ◌++◌, ◌≡◌, refl, sym, ap, ◌∙◌, map, length,
}
use hyperfixation_core.Resolution.{
  SourceRecord, RecordLink, RecordLinkMethod, ok, Resolver, Store, found, Count, leader, leader_of,
  same_texts, existing_link, exact_values, scan,
}
use hyperfixation_core.Resolution.Row.{link, follow, resolve_row, settle_row}
use hyperfixation_core.Resolution.Batch.{
  Batch, release, group_key, process_row, process, started, resolve_rows, resolve_batch,
}

-- The link that a row gets as a follower.
abbrev pub follower : String → String → SourceRecord → RecordLink
follower record_type id row = record {
  source_record_id = row.id;
  record_type = record_type;
  record_id = id;
  confidence = some (1, 1);
  method = RecordLinkMethod.exact;
}

-- No row has a link.
abbrev pub NoLinks : List RecordLink → List SourceRecord → Type 0
NoLinks linked [] = Unit {0}
NoLinks linked (row ∷ rows) = (existing_link row.id linked ≡ none) × NoLinks linked rows

module _ {W : Type 0} (resolver : Resolver W) (no_keys : resolver.exact_keys ≡ []) where
  process_row-follows :
      (linked : List RecordLink) (id : String) (row : SourceRecord) (b : Batch W)
      → existing_link row.id linked ≡ none
      → leader [] b.groups ≡ some (found id)
      → ((process_row resolver linked row b).store.links
          ≡ b.store.links ++ follower resolver.record_type id row ∷ [])
        × ((process_row resolver linked row b).groups ≡ b.groups)
  unfolding process_row release group_key exact_values leader_of settle_row follow link
  process_row-follows linked id row b none_yet led =
      (rw (none_yet, no_keys, led) refl, rw (none_yet, no_keys, led) refl)

  process-follows :
      (linked : List RecordLink) (id : String) (rows : List SourceRecord) (b : Batch W)
      → NoLinks linked rows
      → leader [] b.groups ≡ some (found id)
      → (process resolver linked rows b).store.links
        ≡ b.store.links ++ map (follower resolver.record_type id) rows
  unfolding process
  process-follows linked id [] b none_yet led = sym (append-nil b.store.links)
  process-follows linked id (row ∷ rows) b none_yet led =
      let step = process_row-follows linked id row b none_yet.0 led in
      process-follows linked id rows (process_row resolver linked row b) none_yet.1
        (ap (leader []) step.1 ∙ led)
      ∙ ap (λ (ls : List RecordLink). ls ++ map (follower resolver.record_type id) rows) step.0
      ∙ append_assoc b.store.links (follower resolver.record_type id row ∷ [])
          (map (follower resolver.record_type id) rows)

  no_values : (row : SourceRecord) → exact_values row.payload resolver.exact_keys ≡ some []
  unfolding exact_values
  no_values row = ap (exact_values row.payload) no_keys

  process_row-leads :
      (scanned : ℕ) (s : Store W) (row : SourceRecord) (count : Count) (id : String) (s' : Store W)
      → existing_link row.id s.links ≡ none
      → resolve_row resolver row (some []) s ≡ ok (count, (some (found id), s'))
      → (leader [] (process_row resolver s.links row (started scanned s)).groups ≡ some (found id))
        × ((process_row resolver s.links row (started scanned s)).store.links ≡ s'.links)
  unfolding process_row release group_key leader_of leader same_texts settle_row
  process_row-leads scanned s row count id s' none_yet first =
      (rw (none_yet, no_values row, first) refl, rw (none_yet, no_values row, first) refl)

  -- A resolver without exact keys: where no row of the scan has a link yet and the first one is
  -- resolved to a record, the batch links every other row of the scan to that record, as an exact
  -- match with confidence one, whatever the payloads hold.
  pub keyless_rows_share_record :
      (source : String) (limit max : ℕ) (s s' : Store W) (row : SourceRecord)
      (rest : List SourceRecord) (count : Count) (id : String)
      → scan source max limit s.records ≡ row ∷ rest
      → NoLinks s.links (row ∷ rest)
      → resolve_row resolver row (some []) s ≡ ok (count, (some (found id), s'))
      → (resolve_batch resolver source limit max s).1.links
        ≡ s'.links ++ map (follower resolver.record_type id) rest
  unfolding resolve_batch resolve_rows process
  keyless_rows_share_record source limit max s s' row rest count id rows none_yet first =
      let scanned = length (row ∷ rest) in
      let lead = process_row-leads scanned s row count id s' none_yet.0 first in
      rw rows (
        process-follows s.links id rest (process_row resolver s.links row (started scanned s))
          none_yet.1 lead.0
        ∙ ap (λ (ls : List RecordLink). ls ++ map (follower resolver.record_type id) rest) lead.1)
