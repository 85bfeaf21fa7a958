-- ===== src/Stream/Apply/Removal.antt =====
-- Finished and cancelled entities: `_remove_by_key` and `_complete_task` of
-- src/fl_op/stream/apply.py.
use mathlib.Core.Path.{subst}
use fl_op.Base.{
  ◌≡◌, refl, ap, sym, Option, none, some, true, false, not, List, [], Text, text_eq, contains,
  if◌then◌else◌, arith, keep,
}
use fl_op.Base.Dict.{get}
use fl_op.Base.Members.{In, In-keep}
use fl_op.Stream.Apply.Rows.{Host, Row, Sources, Tables, contracts_for, key_field, matches}
use fl_op.Stream.Apply.Loops.{option_map, keep-keep, get-each}
use fl_op.Stream.Apply.Tasks.{keep_others, remove_by_key}

module _ (h : Host) (t : Tables) where
  keep_others_idem :
      (ref : Text) (key : Option Text) (rows : List (Row h))
      → keep_others h t ref key (keep_others h t ref key rows) ≡ keep_others h t ref key rows
  keep_others_idem ref none rows = refl
  keep_others_idem ref (some key) rows = keep-keep (λ row. not (matches h key ref row)) rows

  -- Removing an entity's rows leaves, in each contract, exactly the rows of another key: in the loaded
  -- contracts of the entity those that do not match the reference on the key column, if the contract
  -- has one, and in every other contract all rows.
  get-remove_by_key :
      (ref entity cid : Text) (sources : Sources h)
      → get cid (remove_by_key h t ref entity sources) ≡ (
          if contains cid (contracts_for t entity sources)
          then option_map (keep_others h t ref (key_field t cid)) (get cid sources)
          else get cid sources)
  unfolding remove_by_key
  get-remove_by_key ref entity cid sources =
      get-each h (λ i. keep_others h t ref (key_field t i)) cid
        (keep_others_idem ref (key_field t cid)) (contracts_for t entity sources) sources

  -- No row of the contract has this key.
  abbrev pub IsGone : Text → Text → Text → Sources h → Type 0
  IsGone ref key cid sources =
      (rows : List (Row h)) (row : Row h)
      → get cid sources ≡ some rows
      → In row rows
      → matches h key ref row ≡ false

  abbrev or_none : Option (List (Row h)) → List (Row h)
  or_none none = []
  or_none (some rows) = rows

  option_map_inv :
      (key ref : Text) (o : Option (List (Row h))) (rows : List (Row h)) (row : Row h)
      → option_map (keep (λ r. not (matches h key ref r))) o ≡ some rows
      → In row rows
      → matches h key ref row ≡ false
  option_map_inv key ref none rows row e m = ground arith
  option_map_inv key ref (some before) rows row e m = ground (
    arith,
    (In-keep (λ r. not (matches h key ref r)) row before
        (subst (λ rs. In row rs) (sym (ap or_none e)) m)).1,
  )

  pub removed-IsGone :
      (ref entity cid key : Text) (sources : Sources h)
      → contains cid (contracts_for t entity sources) ≡ true
      → key_field t cid ≡ some key
      → IsGone ref key cid (remove_by_key h t ref entity sources)
  removed-IsGone ref entity cid key sources loaded keyed rows row e m =
      option_map_inv key ref (get cid sources) rows row
        (ground (arith, get-remove_by_key ref entity cid sources)) m
