-- ===== src/Resolution/Row.antt =====
-- packages/core/src/resolution.ts: what resolveBatch does with one row, and resolveRow.
use hyperfixation_core.Prelude.{
  ℕ, String, Option, none, some, List, [], ◌∷◌, ◌++◌, ◌==◌, if◌then◌else◌, or_else, update_where,
}
use hyperfixation_core.Resolution.Dice.{Ratio, bigram_dice, ratio_lt}
use hyperfixation_core.Resolution.{
  text_value, Payload, payload_get, SourceRecord, RecordLinkMethod, Answer, ok, threw, Resolver,
  Store, Outcome, found, for_review, failed, Count, linked_exact, linked_fuzzy, created_one,
  updated, reviewed, is_id, to_linked, to_review,
}

-- The best candidate: the first of the highest similarity.
unfoldable pub best_of :
    String → List (String × Option String) → Option (String × Ratio) → Option (String × Ratio)
best_of needle [] best = best
best_of needle ((id, value) ∷ rest) best =
    let score : Ratio = elim value [ none ↦ (0, 1) | some v ↦ bigram_dice needle v ] in
    best_of needle rest (elim best as (λ _. Option (String × Ratio)) [
      | none ↦ some (id, score)
      | some (other, top) ↦ if ratio_lt top score then some (id, score) else some (other, top)
    ])

-- What one row did, or threw: the counter that it raises, the outcome for its group, the store.
abbrev pub Settled : Type 0 → Type 0
Settled W = Answer (Count × (Option Outcome × Store W))

module _ {W : Type 0} where
  abbrev pub write : ℕ → (SourceRecord → SourceRecord) → Store W → Store W
  write id f s = record s { records = update_where (is_id id) f s.records }

  -- INSERT_LINK_STATEMENT and then LINKED_STATEMENT.
  unfoldable pub link :
      Resolver W → ℕ → String → RecordLinkMethod → Option Ratio → Store W → Store W
  link resolver id record_id method confidence s = record s {
    records = update_where (is_id id) to_linked s.records;
    links =
        s.links
        ++ record {
          source_record_id = id;
          record_type = resolver.record_type;
          record_id = record_id;
          confidence = confidence;
          method = method;
        }
          ∷ [];
  }

  unfoldable pub create_record : Resolver W → SourceRecord → Store W → Settled W
  create_record resolver row s = elim (resolver.create row.payload s.app) [
    | threw e ↦ threw e
    | ok (id, app) ↦ ok (
      created_one,
      (
        some (found id),
        link resolver row.id id RecordLinkMethod.created none (record s { app = app }),
      ),
    )
  ]

  -- `resolver.update` and then the link.
  unfoldable pub update_and_link :
      Resolver W
      → SourceRecord
      → String
      → RecordLinkMethod
      → Option Ratio
      → Count
      → Store W
      → Settled W
  update_and_link resolver row id method confidence count s =
      elim (resolver.update id row.payload s.app) [
        | threw e ↦ threw e
        | ok app ↦ ok (
          count,
          (some (found id), link resolver row.id id method confidence (record s { app = app })),
        )
      ]

  unfoldable pub link_best :
      Resolver W → SourceRecord → Option (String × Ratio) → Store W → Settled W
  link_best resolver row none s = create_record resolver row s
  link_best resolver row (some (id, score)) s =
      if resolver.reviews score
      then ok (reviewed, (some for_review, write row.id to_review s))
      else update_and_link resolver row id RecordLinkMethod.fuzzy (some score) linked_fuzzy s

  -- The text that the fuzzy pass looks for: one that is not empty.
  unfoldable pub needle_of : Resolver W → Payload → Option String
  needle_of resolver payload = elim resolver.fuzzy [
    | none ↦ none
    | some f ↦ elim (payload_get (or_else f.payload_key f.field) payload) [
      | none ↦ none
      | some v ↦ elim v [
        | text_value needle ↦ if needle == "" then none else some needle
        | _ ↦ none
      ]
    ]
  ]

  unfoldable pub match_fuzzy : Resolver W → SourceRecord → Store W → Settled W
  match_fuzzy resolver row s = elim (needle_of resolver row.payload) [
    | none ↦ create_record resolver row s
    | some needle ↦
        link_best resolver row (best_of needle (resolver.candidates needle s.app) none) s
  ]

  -- No exact keys mean no exact pass, as in the `exactStatement` that is undefined.
  unfoldable pub exact_hit : Resolver W → Option (List String) → W → Option String
  exact_hit resolver none app = none
  exact_hit resolver (some []) app = none
  exact_hit resolver (some (v ∷ vs)) app = resolver.exact_match (v ∷ vs) app

  unfoldable pub resolve_row :
      Resolver W → SourceRecord → Option (List String) → Store W → Settled W
  resolve_row resolver row keys s = elim (exact_hit resolver keys s.app) [
    | some id ↦ update_and_link resolver row id RecordLinkMethod.exact (some (1, 1)) linked_exact s
    | none ↦ match_fuzzy resolver row s
  ]

  -- A follower takes the outcome of the leader of its group.
  unfoldable pub follow : Resolver W → SourceRecord → Outcome → Store W → Settled W
  follow resolver row (found id) s =
      ok (linked_exact, (none, link resolver row.id id RecordLinkMethod.exact (some (1, 1)) s))
  follow resolver row for_review s = ok (reviewed, (none, write row.id to_review s))
  follow resolver row failed s = threw "the first row of this batch group failed to resolve"

  -- A row that has a link already.
  unfoldable pub update_linked : Resolver W → SourceRecord → String → Store W → Settled W
  update_linked resolver row id s = elim (resolver.update id row.payload s.app) [
    | threw e ↦ threw e
    | ok app ↦ ok (updated, (none, write row.id to_linked (record s { app = app })))
  ]

  unfoldable pub settle_row :
      Resolver W
      → SourceRecord
      → Option String
      → Option (List String)
      → Option Outcome
      → Store W
      → Settled W
  settle_row resolver row (some id) keys led s = update_linked resolver row id s
  settle_row resolver row none keys (some o) s = follow resolver row o s
  settle_row resolver row none keys none s = resolve_row resolver row keys s
