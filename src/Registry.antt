-- ===== src/Registry.antt =====
-- packages/core/src/registry.ts: createRegistry, over the entries in the order of their
-- registration. `key_of` is the caller's `keyOf`.
use hyperfixation_core.Prelude.{
  String, Bool, false, Option, none, some, List, [], ◌∷◌, ◌++◌, ◌==◌, ◌≡◌, refl, sym, ◌∙◌, ◌≢◌, inl,
  inr, arith, eq_iff, if◌then◌else◌, map, find_where, any_where, find_where-append,
  any_where-false_find, Bool-cases, eq_refl,
}
use hyperfixation_core.State.{Result, ok, err, duplicate_registration, unknown_registration}

pub record Registry (A : Type 0) : Type 0 where
  pub kind : String
  pub key_of : A → String
  pub entries : List A

module _ {A : Type 0} where
  abbrev pub is_named : Registry A → String → A → Bool
  is_named r name e = r.key_of e == name

  unfoldable pub has : Registry A → String → Bool
  has r name = any_where (is_named r name) r.entries

  unfoldable pub get : Registry A → String → Option A
  get r name = find_where (is_named r name) r.entries

  unfoldable pub names : Registry A → List String
  names r = map r.key_of r.entries

  unfoldable pub register : Registry A → A → Result (A × Registry A)
  unfolding has
  register r e =
      if has r (r.key_of e)
      then err (duplicate_registration r.kind (r.key_of e))
      else ok (e, record r { entries = r.entries ++ e ∷ [] })

  unfoldable pub require_entry : Registry A → String → Result A
  unfolding get names
  require_entry r name = elim (get r name) [
    | none ↦ err (unknown_registration r.kind name (names r))
    | some e ↦ ok e
  ]

  abbrev pub with_entry : Registry A → A → Registry A
  with_entry r e = record r { entries = r.entries ++ e ∷ [] }

  register-cases :
      (r r' : Registry A) (e e' : A)
      → register r e ≡ ok (e', r')
      → (has r (r.key_of e) ≡ false) × (r' ≡ with_entry r e)
  unfolding register has
  register-cases r r' e e' h = ground arith

  get-with_entry :
      (r : Registry A) (e : A) (name : String)
      → get (with_entry r e) name
        ≡ elim (get r name) [ none ↦ if r.key_of e == name then some e else none | some x ↦ some x ]
  unfolding get find_where
  get-with_entry r e name = find_where-append (is_named r name) r.entries (e ∷ [])

  get_self :
      (r : Registry A) (e : A)
      → has r (r.key_of e) ≡ false
      → (get (with_entry r e) (r.key_of e) ≡ some e) × (get r (r.key_of e) ≡ none)
  unfolding get has
  get_self r e free =
      let absent = any_where-false_find (is_named r (r.key_of e)) r.entries free in
      (get-with_entry r e (r.key_of e) ∙ rw (absent, eq_refl (r.key_of e)) refl, absent)

  get_other :
      (r : Registry A) (e : A) (name : String)
      → name ≢ r.key_of e
      → get (with_entry r e) name ≡ get r name
  get_other r e name ne = elim (Bool-cases (r.key_of e == name)) [
    | inl same ↦ absurd (ne (sym ((eq_iff (r.key_of e) name).0 same)))
    | inr apart ↦ get-with_entry r e name ∙ kept apart (get r name)
  ]
    where
      kept :
          (r.key_of e == name) ≡ false
          → (o : Option A)
          → (elim o as (λ _. Option A) [
            | none ↦ if r.key_of e == name then some e else none
            | some x ↦ some x
          ])
            ≡ o
      kept apart none = rw apart refl
      kept apart (some x) = refl

  -- A registration answers under its own name afterwards, and no registration before it is lost or
  -- replaced: every other name answers as it did, and a name that is held is refused.
  pub register-require :
      (r r' : Registry A) (e e' : A)
      → register r e ≡ ok (e', r')
      → (require_entry r' (r.key_of e) ≡ ok e)
        × (get r (r.key_of e) ≡ none)
        × ((name : String) → name ≢ r.key_of e → get r' name ≡ get r name)
  unfolding register require_entry get has
  register-require r r' e e' h =
      let (free, same) = register-cases r r' e e' h in
      let (found, absent) = get_self r e free in
      rw same (rw (require_entry, found) refl, absent, get_other r e)
