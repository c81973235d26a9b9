-- ===== src/Tests/Resolution.antt =====
-- Witnesses for the resolution of source records.
use hyperfixation_core.Prelude.{
  ℕ, ◌<◌, ◌≤◌, String, true, none, some, [], ◌∷◌, ◌++◌, map, ◌≡◌, refl, arith, select_where,
  update_where,
}
use hyperfixation_core.Resolution.{
  SourceRecord, SourceRecordStatus, RecordLinkMethod, created_one, Resolver, Store, text_value, ok,
  threw, existing_link, scan,
}
use hyperfixation_core.Resolution.Dice.{bigram_dice, dice_bounds}
use hyperfixation_core.Resolution.Row.{
  link, create_record, needle_of, match_fuzzy, exact_hit, resolve_row,
}
use hyperfixation_core.Resolution.Batch.{resolve_batch}
use hyperfixation_core.Resolution.Weight.{total, weight}
use hyperfixation_core.Resolution.Progress.{resolve_until_done, resolution_ends}
use hyperfixation_core.Resolution.Keyless.{follower, keyless_rows_share_record}

-- An app whose table holds one company, and whose every similarity wants a review.
abbrev companies : Resolver ℕ
companies = record {
  record_type = "company";
  exact_keys = "domain" ∷ [];
  fuzzy = some (record { field = "name"; payload_key = none });
  reviews = λ similarity. true;
  exact_match = λ keys app. none;
  candidates = λ needle app. ("7", some "Acme Inc") ∷ [];
  create = λ payload app. threw "no creates";
  update = λ id payload app. ok app;
}

abbrev row_of : ℕ → String → SourceRecord
row_of id name = record {
  id = id;
  source = "crm";
  payload = ("name", text_value name) ∷ [];
  status = SourceRecordStatus.new;
  attempts = 0;
  message = none;
}

abbrev two_rows : Store ℕ
two_rows = record { records = row_of 1 "Acme" ∷ row_of 2 "Other" ∷ []; links = []; app = 0 }

six_left : total "crm" 3 two_rows.records < 7
unfolding total weight
six_left = omega arith

resolution_ends_example :
    (s' : Store ℕ) × (resolve_until_done companies "crm" 1 3 7 two_rows ≡ some s')
resolution_ends_example =
    resolution_ends companies "crm" 1 3 7 two_rows ((refl, tt), (tt, tt)) six_left

dice_bounds_example :
    ((bigram_dice "acme" "acme inc").0 ≤ (bigram_dice "acme" "acme inc").1)
    × (1 ≤ (bigram_dice "acme" "acme inc").1)
dice_bounds_example = dice_bounds "acme" "acme inc"

-- A resolver that creates a record for every row, and joins on nothing.
abbrev keyless : Resolver ℕ
keyless = record companies { exact_keys = []; fuzzy = none; create = λ payload app. ok ("c1", app) }

abbrev after_create : Store ℕ
after_create = record {
  records = record (row_of 1 "Acme") { status = SourceRecordStatus.linked } ∷ row_of 2 "Other" ∷ [];
  links =
      record {
        source_record_id = 1;
        record_type = "company";
        record_id = "c1";
        confidence = none;
        method = RecordLinkMethod.created;
      }
      ∷ [];
  app = 0;
}

keyless_rows_share_record_example :
    (resolve_batch keyless "crm" 5 3 two_rows).1.links
    ≡ after_create.links ++ map (follower "company" "c1") (row_of 2 "Other" ∷ [])
unfolding scan select_where resolve_row exact_hit match_fuzzy needle_of create_record link
    update_where existing_link
keyless_rows_share_record_example =
    keyless_rows_share_record keyless refl "crm" 5 3 two_rows after_create (row_of 1 "Acme")
      (row_of 2 "Other" ∷ []) created_one "c1" refl (refl, (refl, tt)) refl
