-- ===== src/Resolution.antt =====
-- packages/core/src/resolution.ts: resolveBatch, over the rows of hf_source_record and
-- hf_record_link and the app's own table, which is a parameter of the model with the statements and
-- the resolver that read and write it. Resolution/Dice has the similarity of two texts.
pub mod Dice
pub mod Row
pub mod Batch
pub mod Weight
pub mod Writes
pub mod Progress
pub mod Blocked
pub mod Keyless
use hyperfixation_core.Prelude.{
  ℕ, zero, suc, ◌+◌, String, Bool, true, false, not, Option, none, some, List, [], ◌∷◌, ◌++◌, ◌&&◌,
  ◌||◌, ◌==◌, if◌then◌else◌, eqb, ltb, length, find_where, update_where, select_where, or_else,
}
use hyperfixation_core.Resolution.Dice.{Ratio, bigram_dice, ratio_lt}

-- A value of a payload: null, a text, or any other value with what `String(value)` gives.
pub data Value : Type 0 where
  null : Value
  text_value : String → Value
  other_value : String → Value

abbrev pub Payload : Type 0
Payload = List (String × Value)

pub data SourceRecordStatus : Type 0 where
  new linked review error : SourceRecordStatus

pub record SourceRecord : Type 0 where
  pub id : ℕ
  pub source : String
  pub payload : Payload
  pub status : SourceRecordStatus
  pub attempts : ℕ
  pub message : Option String

pub data RecordLinkMethod : Type 0 where
  exact fuzzy created manual human_confirmed : RecordLinkMethod

pub record RecordLink : Type 0 where
  pub source_record_id : ℕ
  pub record_type : String
  pub record_id : String
  pub confidence : Option Ratio
  pub method : RecordLinkMethod

-- What a resolver's function or a statement of its transaction answers.
pub data Answer (A : Type 0) : Type 0 where
  ok : A → Answer A
  threw : String → Answer A

pub record ResolverFuzzy : Type 0 where
  pub field : String
  pub payload_key : Option String

-- A resolver of the app with the state of its table. `exact_match` and `candidates` are the two
-- SELECTs on it, the second with the value of the fuzzy field where it is a text.
pub record Resolver (W : Type 0) : Type 0 where
  pub record_type : String
  pub exact_keys : List String
  pub fuzzy : Option ResolverFuzzy
  pub reviews : Ratio → Bool
  pub exact_match : List String → W → Option String
  pub candidates : String → W → List (String × Option String)
  pub create : Payload → W → Answer (String × W)
  pub update : String → Payload → W → Answer W

pub record Store (W : Type 0) : Type 0 where
  pub records : List SourceRecord
  pub links : List RecordLink
  pub app : W

pub data Outcome : Type 0 where
  found : String → Outcome
  for_review failed : Outcome

-- Which counter of the result a row raises.
pub data Count : Type 0 where
  linked_exact linked_fuzzy created_one updated reviewed : Count

pub record ResolveBatchResult : Type 0 where
  pub scanned : ℕ
  pub linked_exact : ℕ
  pub linked_fuzzy : ℕ
  pub created : ℕ
  pub updated : ℕ
  pub review : ℕ
  pub error : ℕ
  pub done : Bool

abbrev pub is_id : ℕ → SourceRecord → Bool
is_id id r = eqb r.id id

abbrev pub is_linked : SourceRecordStatus → Bool
is_linked SourceRecordStatus.linked = true
is_linked _ = false

-- The rows of SCAN_STATEMENT.
abbrev pub is_scanned : String → ℕ → SourceRecord → Bool
is_scanned source max_attempts r =
    (r.source == source) && (not (is_linked r.status) && ltb r.attempts max_attempts)

abbrev pub to_linked : SourceRecord → SourceRecord
to_linked r = record r { status = SourceRecordStatus.linked; message = none }

abbrev pub to_review : SourceRecord → SourceRecord
to_review r = record r { status = SourceRecordStatus.review; message = none }

abbrev pub to_error : String → SourceRecord → SourceRecord
to_error e r = record r {
  status = SourceRecordStatus.error;
  attempts = r.attempts + 1;
  message = some e;
}

unfoldable pub payload_get : String → Payload → Option Value
payload_get key [] = none
payload_get key ((k, v) ∷ rest) = if k == key then some v else payload_get key rest

abbrev pub with_value : Option Value → Option (List String) → Option (List String)
with_value none rest = none
with_value (some Value.null) rest = none
with_value (some (text_value s)) none = none
with_value (some (text_value s)) (some vs) = some (s ∷ vs)
with_value (some (other_value s)) none = none
with_value (some (other_value s)) (some vs) = some (s ∷ vs)

-- exactValues.
unfoldable pub exact_values : Payload → List String → Option (List String)
exact_values payload [] = some []
exact_values payload (key ∷ keys) = with_value (payload_get key payload) (exact_values payload keys)

unfoldable pub same_texts : List String → List String → Bool
same_texts [] [] = true
same_texts (a ∷ as') (b ∷ bs) = (a == b) && same_texts as' bs
same_texts _ _ = false

-- The outcomes of the groups of the batch, by their exact values.
abbrev pub Groups : Type 0
Groups = List (List String × Outcome)

unfoldable pub leader : List String → Groups → Option Outcome
leader keys [] = none
leader keys ((k, o) ∷ rest) = if same_texts k keys then some o else leader keys rest

-- `existing.get(row.id)`.
unfoldable pub existing_link : ℕ → List RecordLink → Option String
existing_link id [] = none
existing_link id (l ∷ ls) =
    let rest = existing_link id ls in if eqb l.source_record_id id then some l.record_id else rest

unfoldable pub leader_of : Option (List String) → Groups → Option Outcome
leader_of none groups = none
leader_of (some keys) groups = leader keys groups

abbrev pub take : ℕ → List SourceRecord → List SourceRecord
take zero xs = []
take (suc n) [] = []
take (suc n) (x ∷ xs) = x ∷ take n xs

-- The table is in the order of its ids.
unfoldable pub scan : String → ℕ → ℕ → List SourceRecord → List SourceRecord
scan source max_attempts limit rs = take limit (select_where (is_scanned source max_attempts) rs)

abbrev pub empty_result : ℕ → ResolveBatchResult
empty_result scanned = record {
  scanned = scanned;
  linked_exact = 0;
  linked_fuzzy = 0;
  created = 0;
  updated = 0;
  review = 0;
  error = 0;
  done = true;
}

abbrev pub moved : ResolveBatchResult → ℕ
moved r = r.linked_exact + r.linked_fuzzy + r.created + r.updated + r.error
