-- ===== src/Stream/Apply/Convergence.antt =====
-- Corrected rows converge: the upsert of `_append_payload` of src/fl_op/stream/apply.py as a lookup.
use fl_op.Base.{
  ◌≡◌, refl, Option, none, some, true, List, [], ◌∷◌, Text, text_eq, arith, length, ◌+◌, Bool-cases,
  inl, inr, is_some, if◌then◌else◌, ◌==◌,
}
use fl_op.Base.Dict.{get}
use fl_op.Stream.Apply.Rows.{
  Host, Row, Tables, matches, str_value, row_get, replace_first, option_cons,
}
use fl_op.Stream.Apply.Tasks.{find_row}
use fl_op.Stream.Apply.Upserts.{upsert_row, same_key, or_append}

module _ (h : Host) (t : Tables) where
  or_append-option_cons :
      (payload row : Row h) (rows : List (Row h)) (o : Option (List (Row h)))
      → or_append h payload (row ∷ rows) (option_cons h row o) ≡ row ∷ or_append h payload rows o
  or_append-option_cons payload row rows none = refl
  or_append-option_cons payload row rows (some rs) = refl

  upsert_row_cons :
      (key : Option Text) (payload row : Row h) (rows : List (Row h))
      → upsert_row h key payload (row ∷ rows) ≡ (
          if same_key h key payload row
          then payload ∷ rows
          else row ∷ upsert_row h key payload rows)
  unfolding upsert_row replace_first
  upsert_row_cons key payload row rows = elim (Bool-cases (same_key h key payload row)) [
    | inl same ↦ rw same refl
    | inr other ↦ rw other (or_append-option_cons payload row rows _)
  ]

  -- Looking up a reference after an upsert: the payload's own finds the payload, and every other
  -- reference finds the row that it found before.
  pub find_row-upsert_row :
      (key ref : Text) (payload : Row h) (rows : List (Row h))
      → is_some (get key payload) ≡ true
      → find_row h t key ref (upsert_row h (some key) payload rows) ≡ (
          if str_value h (row_get h key payload) == ref
          then some payload
          else find_row h t key ref rows)
  unfolding find_row upsert_row replace_first matches
  find_row-upsert_row key ref payload [] keyed = refl
  find_row-upsert_row key ref payload (row ∷ rows) keyed =
      let new = str_value h (row_get h key payload) in
      let old = str_value h (row_get h key row) in
      ground (
        arith,
        upsert_row_cons (some key) payload row rows,
        find_row-upsert_row key ref payload rows keyed,
        text_eq.agrees_iff new ref,
        text_eq.agrees_iff old ref,
        text_eq.agrees_iff old new,
      )

  -- An upsert adds a row exactly if none has the payload's key.
  length-upsert_row :
      (key : Text) (payload : Row h) (rows : List (Row h))
      → is_some (get key payload) ≡ true
      → length (upsert_row h (some key) payload rows) ≡ (
          if is_some (find_row h t key (str_value h (row_get h key payload)) rows)
          then length rows
          else length rows + 1)
  unfolding find_row upsert_row replace_first matches
  length-upsert_row key payload [] keyed = refl
  length-upsert_row key payload (row ∷ rows) keyed =
      ground (
        arith,
        upsert_row_cons (some key) payload row rows,
        length-upsert_row key payload rows keyed,
      )
