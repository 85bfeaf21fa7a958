-- ===== src/Stream/Apply/Tasks.antt =====
-- What events do to tasks: the task handlers of src/fl_op/stream/apply.py.
use fl_op.Base.{
  ℕ, Option, none, some, or_else, not, List, [], ◌∷◌, ◌++◌, Text, text_eq, codes, if◌then◌else◌,
  keep, map,
}
use fl_op.Base.Dict.{Dict, get, put}
use fl_op.Stream.Apply.Rows.{
  Host, Value, null, text, number, Row, Sources, Tables, contracts_for, key_field, status_field,
  work_fields, column, row_get, get_or_zero, matches, to_float, each,
}
use fl_op.Stream.Apply.Coverage.{Ring, CoverageState}

-- `completions`, `_coverage` and `coverage_reports`
pub record Completion (h : Host) : Type 0 where
  pub task_id : Text
  pub completed_at : Text
  pub via : Text
  pub deadline : Value h.Float

pub record CoverageEntry (h : Host) : Type 0 where
  pub rings : List (Ring h)
  pub originals : Dict Text h.Float
  pub original_area_ha : h.Float
  pub n_passes : ℕ

pub record CoverageReport (h : Host) : Type 0 where
  pub task_id : Text
  pub observed_at : Text
  pub n_passes : ℕ
  pub original_area_ha : h.Float
  pub state : CoverageState h

-- The applicator's changing state with the rows it works on.
pub record State (h : Host) : Type 0 where
  pub sources : Sources h
  pub seen_event_ids : List Text
  pub watermarks : Dict Text ℕ
  pub completions : List (Completion h)
  pub coverage : Dict Text (CoverageEntry h)
  pub coverage_reports : List (CoverageReport h)

module _ (h : Host) (t : Tables) where
  -- `for row in sources[cid]: if str(row.get(key)) == ref: …`
  abbrev pub at_matching : Text → Text → (Row h → Row h) → List (Row h) → List (Row h)
  at_matching key ref f = map (λ row. if matches h key ref row then f row else row)

  abbrev pub task_contracts : Sources h → List Text
  task_contracts sources = contracts_for t (codes "task") sources

  -- `row[status] = TaskStatus.STARTED.value`, if the contract has a status column
  abbrev pub mark_started : Option Text → Row h → Row h
  mark_started none row = row
  mark_started (some status) row = put status (text (codes "started")) row

  -- `_remove_by_key`
  abbrev pub keep_others : Text → Option Text → List (Row h) → List (Row h)
  keep_others ref none rows = rows
  keep_others ref (some key) rows = keep (λ row. not (matches h key ref row)) rows

  unfoldable pub remove_by_key : Text → Text → Sources h → Sources h
  unfolding each contracts_for key_field matches
  remove_by_key ref entity sources =
      each h (λ cid. keep_others ref (key_field t cid)) (contracts_for t entity sources) sources

  -- `_set_task_started`
  abbrev start_rows : Text → Option Text → Option Text → List (Row h) → List (Row h)
  start_rows ref (some key) (some status) rows =
      at_matching key ref (mark_started (some status)) rows
  start_rows ref _ _ rows = rows

  unfoldable pub set_task_started : Text → Sources h → Sources h
  unfolding each contracts_for key_field status_field matches
  set_task_started ref sources =
      each h (λ cid. start_rows ref (key_field t cid) (status_field t cid)) (task_contracts sources)
        sources

  -- The first row of a contract that matches.
  unfoldable pub find_row : Text → Text → List (Row h) → Option (Row h)
  find_row key ref [] = none
  find_row key ref (row ∷ rows) =
      let rest = find_row key ref rows in if matches h key ref row then some row else rest

  abbrev pub rows_of : Text → Sources h → List (Row h)
  rows_of cid sources = or_else (get cid sources) []

  -- One contract's part of `record["deadline"]`.
  abbrev deadline_of : Option Text → Option (Row h) → Value h.Float → Value h.Float
  deadline_of (some field) (some row) deadline = row_get h field row
  deadline_of _ _ deadline = deadline

  abbrev pub find_by : Option Text → Text → List (Row h) → Option (Row h)
  find_by none ref rows = none
  find_by (some key) ref rows = find_row key ref rows

  unfoldable pub deadline_from : Text → List Text → Sources h → Value h.Float → Value h.Float
  unfolding find_row key_field
  deadline_from ref [] sources deadline = deadline
  deadline_from ref (cid ∷ cids) sources deadline = deadline_from ref cids sources (
      deadline_of (column t (codes "task.deadline") cid)
        (find_by (key_field t cid) ref (rows_of cid sources)) deadline)

  -- `_complete_task`
  unfoldable pub complete_task : Text → Text → Text → State h → State h
  unfolding deadline_from remove_by_key
  complete_task ref completed_at via st = record st {
    sources = remove_by_key ref (codes "task") st.sources;
    completions =
        st.completions
        ++ record {
          task_id = ref;
          completed_at = completed_at;
          via = via;
          deadline = deadline_from ref (task_contracts st.sources) st.sources null;
        }
          ∷ [];
  }

  -- `_scale_task_work`: one work column scaled, left as it is if it is no number
  unfoldable pub scale_field : h.Float → Text → Row h → Row h
  unfolding to_float
  scale_field fraction field row = go (to_float h (get_or_zero h field row))
    where
      go : Option h.Float → Row h
      go none = row
      go (some x) = put field (number (h.round (h.mul x (h.sub h.one_f fraction)) 2)) row

  unfoldable pub scale_fields : h.Float → List Text → Row h → Row h
  unfolding scale_field
  scale_fields fraction [] row = row
  scale_fields fraction (field ∷ fields) row =
      scale_fields fraction fields (scale_field fraction field row)

  abbrev scale_row : h.Float → Option h.Float → Text → List Text → Row h → Row h
  scale_row fraction (some remaining) first rest row = put first (number (h.round remaining 2)) row
  scale_row fraction none first rest row = scale_fields fraction (first ∷ rest) row

  abbrev scale_rows :
      Text
      → h.Float
      → Option h.Float
      → Option Text
      → Option Text
      → List Text
      → List (Row h)
      → List (Row h)
  scale_rows ref fraction remaining (some key) status (first ∷ rest) rows =
      at_matching key ref (λ row. mark_started status (scale_row fraction remaining first rest row))
        rows
  scale_rows ref fraction remaining _ status _ rows = rows

  unfoldable pub scale_task_work : Text → h.Float → Option h.Float → Sources h → Sources h
  unfolding each contracts_for key_field status_field work_fields scale_fields matches
  scale_task_work ref fraction remaining sources =
      each h
        (λ cid.
          scale_rows ref fraction remaining (key_field t cid) (status_field t cid)
            (work_fields t cid))
        (task_contracts sources) sources
