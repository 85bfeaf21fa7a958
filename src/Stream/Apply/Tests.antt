-- ===== src/Stream/Apply/Tests.antt =====
-- Events on a small set of rows: src/fl_op/stream/apply.py.
use fl_op.Base.Dict.{put}
use fl_op.Base.{
  ◌≡◌, refl, Option, none, some, true, false, Text, text_eq, codes, contains, arith, ℕ, ◌*◌, ◌/◌,
  ◌-◌, [], ◌∷◌, ltb, leb, eqb, if◌then◌else◌, is_some, ◌==◌,
}
use fl_op.Base.Dict.{get}
use fl_op.Stream.Apply.Dispatch.{is_replay, event_type_of, event_entity, handle, note_event}
use fl_op.Stream.Apply.Upserts.{parse_observed}
use fl_op.Stream.Apply.Rows.{
  Host, text, number, Row, Table, Tables, register_all, contracts_for, key_field, row_get,
  str_value,
}
use fl_op.Stream.Apply.Tasks.{State, find_row}
use fl_op.Stream.Apply.Upserts.{ExecutionEvent, upsert_row}
use fl_op.Stream.Apply.Dispatch.{apply, apply_all, task_completed}
use fl_op.Stream.Apply.Replay.{apply_replay}
use fl_op.Stream.Apply.Removal.{IsGone}
use fl_op.Stream.Apply.Horizon.{Reaches, watermarks_forward, watermarks_reached}
use fl_op.Stream.Apply.Finished.{apply-IsGone}
use fl_op.Stream.Apply.Convergence.{find_row-upsert_row}

-- Numbers in hundredths; one character is a number or an instant.
abbrev pub one_digit : Text → Option ℕ
one_digit (c ∷ []) = if leb 48 c then some (c - 48) else none
one_digit _ = none

abbrev pub hundredths : Host
hundredths = record {
  Float = ℕ;
  zero_f = 0;
  one_f = 100;
  mul = λ a b. a * b / 100;
  sub = λ a b. a - b;
  div = λ a b. if eqb b 0 then 0 else a * 100 / b;
  lt = ltb;
  le = leb;
  is_zero = λ a. eqb a 0;
  round = λ a _. a;
  parse_float = one_digit;
  show_float = λ a. a ∷ [];
  complete_fraction = 99;
  complete_pct = 10000;
  from_iso_format = one_digit;
  parse_polygon = λ _. [];
  path_latlon = λ _. [];
  swept_polygon = λ _ _. [];
  rings_area_ha = λ _. 0;
}

abbrev pub orders : Table
orders = record {
  canonical_entity = codes "task";
  entity_key_field = some (codes "id");
  by_binding_path =
      (codes "task.status", codes "status")
      ∷ (codes "task.workQuantity", codes "qty")
      ∷ (codes "task.deadline", codes "due")
      ∷ [];
  metric_codes = [];
}

abbrev pub pack : Tables
pack = record {
  tables = (codes "orders", orders) ∷ [];
  by_entity = (codes "task", codes "orders" ∷ []) ∷ [];
}

registered :
    register_all ((codes "orders", some orders) ∷ []) (record { tables = []; by_entity = [] })
    ≡ pack
unfolding register_all put get
registered = refl

abbrev pub task : Text → ℕ → Row hundredths
task id qty =
    (codes "id", text id) ∷ (codes "qty", number qty) ∷ (codes "due", text (codes "9")) ∷ []

abbrev pub start : State hundredths
start = record {
  sources = (codes "orders", task (codes "a") 800 ∷ task (codes "b") 300 ∷ []) ∷ [];
  seen_event_ids = [];
  watermarks = (codes "orders", 2) ∷ [];
  completions = [];
  coverage = [];
  coverage_reports = [];
}

abbrev pub event : Text → Text → Text → Text → Row hundredths → ExecutionEvent hundredths
event id type observed ref payload = record {
  event_id = id;
  event_type = type;
  observed_at = observed;
  entity_ref = ref;
  payload = payload;
  ingested_at = [];
}

abbrev pub half_done : ExecutionEvent hundredths
half_done =
    event (codes "e1") (codes "task.progress") (codes "5") (codes "a")
      ((codes "completed_fraction", number 50) ∷ [])

abbrev pub done : ExecutionEvent hundredths
done = event (codes "e2") (codes "task.completed") (codes "3") (codes "a") []

half_done_scales :
    get (codes "orders") (apply hundredths pack none half_done start).1.sources
    ≡ some (
        ((codes "id", text (codes "a"))
          ∷ (codes "qty", number 400)
          ∷ (codes "due", text (codes "9"))
          ∷ (codes "status", text (codes "started"))
          ∷ [])
        ∷ task (codes "b") 300
        ∷ [])
unfolding get apply contains put
half_done_scales = refl

done_records :
    (apply hundredths pack none done start).1.completions
    ≡ record {
      task_id = codes "a";
      completed_at = codes "3";
      via = codes "event";
      deadline = text (codes "9");
    }
      ∷ []
unfolding apply contains
done_records = refl

half_done_applies : (apply hundredths pack none half_done start).0 ≡ true
unfolding apply contains
half_done_applies = refl

apply_replay_example :
    apply hundredths pack none half_done
      (apply_all hundredths pack none (done ∷ []) (apply hundredths pack none half_done start).1)
    ≡ (
      false,
      apply_all hundredths pack none (done ∷ []) (apply hundredths pack none half_done start).1,
    )
apply_replay_example =
    apply_replay hundredths pack none half_done (done ∷ []) start refl half_done_applies

start-Reaches : Reaches (codes "orders") 2 start.watermarks
unfolding get
start-Reaches = (2, refl, ground arith)

watermarks_forward_example :
    Reaches
      (codes "orders")
      2
      (apply_all hundredths pack none (half_done ∷ done ∷ []) start).watermarks
watermarks_forward_example =
    watermarks_forward hundredths pack (codes "orders") 2 none (half_done ∷ done ∷ []) start
      start-Reaches

horizon_is_five :
    get (codes "orders") (apply_all hundredths pack none (half_done ∷ done ∷ []) start).watermarks
    ≡ some 5
unfolding get apply_all contains put
horizon_is_five = refl

done_is_new : is_replay hundredths pack none done start ≡ false
unfolding is_replay contains
done_is_new = refl

done_typed : event_type_of done.event_type ≡ some task_completed
unfolding event_type_of
done_typed = refl

done_entity : event_entity task_completed ≡ some (codes "task")
unfolding event_entity
done_entity = refl

done_observed : parse_observed hundredths pack done ≡ some 3
unfolding parse_observed
done_observed = refl

orders_loaded :
    contains (codes "orders") (
      contracts_for pack
        (codes "task")
        (handle hundredths pack task_completed done
          (note_event hundredths pack done start)).sources)
    ≡ true
unfolding contains contracts_for get handle note_event
orders_loaded = refl

orders_start : contains (codes "orders") (contracts_for pack (codes "task") start.sources) ≡ true
unfolding contains contracts_for get
orders_start = refl

orders_key : key_field pack (codes "orders") ≡ some (codes "id")
unfolding key_field get
orders_key = refl

watermarks_reached_example :
    Reaches (codes "orders") 3 (apply hundredths pack none done start).1.watermarks
watermarks_reached_example =
    watermarks_reached hundredths pack none done start task_completed (codes "task")
      (codes "orders") 3 done_is_new done_typed done_entity done_observed orders_loaded

apply-IsGone_example :
    IsGone hundredths pack
      (codes "a")
      (codes "id")
      (codes "orders")
      (apply hundredths pack none done start).1.sources
apply-IsGone_example =
    apply-IsGone hundredths pack none done start task_completed (codes "task") (codes "orders")
      (codes "id") done_is_new done_typed refl orders_start orders_key

has_id : is_some (get (codes "id") (task (codes "b") 100)) ≡ true
unfolding get
has_id = refl

find_row-upsert_row_example :
    find_row hundredths pack (codes "id") (codes "b") (
      upsert_row hundredths
        (some (codes "id"))
        (task (codes "b") 100)
        (task (codes "a") 800 ∷ task (codes "b") 300 ∷ []))
    ≡ (if str_value hundredths (row_get hundredths (codes "id") (task (codes "b") 100)) == codes "b"
        then some (task (codes "b") 100)
        else find_row hundredths pack
            (codes "id")
            (codes "b")
            (task (codes "a") 800 ∷ task (codes "b") 300 ∷ []))
find_row-upsert_row_example =
    find_row-upsert_row hundredths pack (codes "id") (codes "b") (task (codes "b") 100)
      (task (codes "a") 800 ∷ task (codes "b") 300 ∷ []) has_id
