-- ===== src/Resolution/Batch.antt =====
-- packages/core/src/resolution.ts: the loop of resolveBatch over the rows of its scan.
use hyperfixation_core.Prelude.{
  ℕ, ◌+◌, String, Option, none, some, List, [], ◌∷◌, ◌||◌, ltb, eqb, length,
}
use hyperfixation_core.Resolution.{
  SourceRecord, RecordLink, ok, threw, Resolver, Store, Outcome, failed, Count, created_one,
  reviewed, ResolveBatchResult, to_error, exact_values, Groups, existing_link, leader_of, scan,
  empty_result, moved,
}
use hyperfixation_core.Resolution.Row.{Settled, write, settle_row}

abbrev pub count_up : Count → ResolveBatchResult → ResolveBatchResult
count_up Count.linked_exact r = record r { linked_exact = r.linked_exact + 1 }
count_up Count.linked_fuzzy r = record r { linked_fuzzy = r.linked_fuzzy + 1 }
count_up created_one r = record r { created = r.created + 1 }
count_up Count.updated r = record r { updated = r.updated + 1 }
count_up reviewed r = record r { review = r.review + 1 }

abbrev pub set_group : Option (List String) → Option Outcome → Groups → Groups
set_group (some keys) (some o) groups = (keys, o) ∷ groups
set_group _ _ groups = groups

pub record Batch (W : Type 0) : Type 0 where
  pub groups : Groups
  pub result : ResolveBatchResult
  pub store : Store W

module _ {W : Type 0} where
  -- RELEASE of what ended; ROLLBACK TO the savepoint, and then the error row, of what threw.
  unfoldable pub release : SourceRecord → Option (List String) → Batch W → Settled W → Batch W
  release row key b (ok (count, (o, s))) = record {
    groups = set_group key o b.groups;
    result = count_up count b.result;
    store = s;
  }
  release row key b (threw e) = record {
    groups = set_group key (some failed) b.groups;
    result = record b.result { error = b.result.error + 1 };
    store = write row.id (to_error e) b.store;
  }

  -- The group of a row without a link.
  unfoldable pub group_key : Resolver W → SourceRecord → Option String → Option (List String)
  group_key resolver row (some id) = none
  group_key resolver row none = exact_values row.payload resolver.exact_keys

  unfoldable pub process_row : Resolver W → List RecordLink → SourceRecord → Batch W → Batch W
  process_row resolver linked row b =
      let existing = existing_link row.id linked in
      let key = group_key resolver row existing in
      release row key b (
        settle_row resolver row existing (exact_values row.payload resolver.exact_keys)
          (leader_of key b.groups) b.store)

  unfoldable pub process : Resolver W → List RecordLink → List SourceRecord → Batch W → Batch W
  process resolver linked [] b = b
  process resolver linked (row ∷ rows) b =
      process resolver linked rows (process_row resolver linked row b)

  abbrev pub started : ℕ → Store W → Batch W
  started scanned s = record { groups = []; result = empty_result scanned; store = s }

  abbrev pub finish : ℕ → ℕ → Batch W → ResolveBatchResult × Store W
  finish scanned limit b =
      (record b.result { done = ltb scanned limit || eqb (moved b.result) 0 }, b.store)

  -- After the scan: nothing to do, or the loop over its rows.
  unfoldable pub resolve_rows :
      Resolver W → ℕ → Store W → List SourceRecord → ResolveBatchResult × Store W
  resolve_rows resolver limit s [] = (empty_result 0, s)
  resolve_rows resolver limit s (row ∷ rest) =
      finish (length (row ∷ rest)) limit
        (process resolver s.links (row ∷ rest) (started (length (row ∷ rest)) s))

  unfoldable pub resolve_batch :
      Resolver W → String → ℕ → ℕ → Store W → ResolveBatchResult × Store W
  unfolding scan process resolve_rows
  resolve_batch resolver source limit max_attempts s =
      resolve_rows resolver limit s (scan source max_attempts limit s.records)
