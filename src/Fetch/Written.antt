-- ===== src/Fetch/Written.antt =====
-- packages/core/src/fetch.ts: what `write_row` leaves in the table of the responses.
use hyperfixation_core.Prelude.{
  ℕ, String, Bool, true, Option, none, some, List, [], ◌∷◌, ◌&&◌, ◌≡◌, refl, ◌∙◌, arith, find_where,
  update_where, find_where-append, Option-cases, inl, inr, eq_refl,
}
use hyperfixation_core.State.{Db, RawFetchRow}
use hyperfixation_core.Fetch.{Head, Method, method_name, is_entry, write_row}
use hyperfixation_core.Fetch.Get.{Call, hash_of, method_of, row_for}

module _ {A : Type 0} (p : A → Bool) where
  pub find_where-and :
      (q : A → Bool) (xs : List A) (y : A)
      → find_where p xs ≡ some y
      → q y ≡ true
      → find_where (λ x. p x && q x) xs ≡ some y
  unfolding find_where
  find_where-and q [] y h k = ground arith
  find_where-and q (x ∷ xs) y h k = ground (arith, find_where-and q xs y)

  find_where-single : (y : A) → p y ≡ true → find_where p (y ∷ []) ≡ some y
  unfolding find_where
  find_where-single y k = rw k refl

  find_where-overwrite :
      (xs : List A) (y old : A)
      → p y ≡ true
      → find_where p xs ≡ some old
      → find_where p (update_where p (λ x. y) xs) ≡ some y
  unfolding find_where update_where
  find_where-overwrite [] y old h k = ground arith
  find_where-overwrite (x ∷ xs) y old h k = ground (arith, find_where-overwrite xs y old)

pub write_row-finds :
    (hash : String) (method : Method) (make : ℕ → RawFetchRow) (db : Db)
    → ((id : ℕ) → is_entry hash method (make id) ≡ true)
    → find_where (is_entry hash method) (write_row hash method make db).1.raw_fetches
      ≡ some (write_row hash method make db).0
unfolding write_row
write_row-finds hash method make db keyed =
    go (find_where (is_entry hash method) db.raw_fetches) refl
  where
    go :
        (o : Option RawFetchRow)
        → find_where (is_entry hash method) db.raw_fetches ≡ o
        → find_where (is_entry hash method) (write_row hash method make db).1.raw_fetches
          ≡ some (write_row hash method make db).0
    go none e =
        rw (write_row, e)
          (find_where-append (is_entry hash method) db.raw_fetches (make db.next_id ∷ [])
            ∙ rw e (find_where-single (is_entry hash method) (make db.next_id) (keyed db.next_id)))
    go (some old) e =
        rw (write_row, e)
          (find_where-overwrite (is_entry hash method) db.raw_fetches (make old.id) old
            (keyed old.id) e)

pub write_row-makes :
    (hash : String) (method : Method) (make : ℕ → RawFetchRow) (db : Db)
    → (id : ℕ) × ((write_row hash method make db).0 ≡ make id)
unfolding write_row
write_row-makes hash method make db =
    elim (Option-cases (find_where (is_entry hash method) db.raw_fetches)) [
      | inl e ↦ (db.next_id, rw (write_row, e) refl)
      | inr (old, e) ↦ (old.id, rw (write_row, e) refl)
    ]

pub row_for-is_entry :
    (c : Call) (h : Head) (body : Option (List ℕ)) (error : Option String) (now id : ℕ)
    → is_entry (hash_of c) (method_of c) (row_for c h body error now id) ≡ true
row_for-is_entry c h body error now id =
    rw (eq_refl (hash_of c), eq_refl (method_name (method_of c))) refl

pub write_row-now :
    (hash : String) (method : Method) (make : ℕ → RawFetchRow) (db : Db)
    → (write_row hash method make db).1.now ≡ db.now
unfolding write_row
write_row-now hash method make db = ground arith
