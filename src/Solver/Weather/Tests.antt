-- ===== src/Solver/Weather/Tests.antt =====
-- Instances of the properties of weather windows, with natural numbers for floats and places.
use fl_op.Base.{
  true, ℕ, ◌+◌, ◌-◌, Option, none, some, ◌&&◌, not, List, [], ◌∷◌, ◌++◌, Text, text_eq, nat_eq,
  codes, contains, if◌then◌else◌, any, ltb, ◌≡◌, refl,
}
use fl_op.Base.Dict.{get, put}
use fl_op.Solver.Allocation.Model.{sorted_by}
use fl_op.Solver.Intervals.{
  subtract_intervals, merge_intervals, merge_sorted, merge_from, cut_all, cut,
}
use fl_op.Solver.Intervals.Merge.{covers}
use fl_op.Solver.Weather.{
  Sky, Forecast, WeatherPolicy, FieldTask, Weathered, coverage_horizon, filter_conservative,
  apply_weather_filter, filter_orders, by_location, site_coords, nearest, compliant_intervals,
}
use fl_op.Solver.Weather.Covered.{safe_in, safe_at, blocked_at, filter_conservative-exact}

abbrev one_digit : Text → Option ℕ
one_digit (c ∷ []) = some (c - 48)
one_digit s = none

abbrev sky : Sky
sky = record {
  Float = ℕ;
  gt = λ a b. ltb b a;
  Place = ℕ;
  places = nat_eq;
  distance = λ a b. (a - b) + (b - a);
  from_iso_format = one_digit;
}

abbrev windy : WeatherPolicy sky
windy = record {
  sensitivity = (codes "SPRAY", codes "wind" ∷ []) ∷ [];
  max_wind_ms = 8;
  max_rain_mm_per_h = 1;
  max_soil_moisture_pct = 40;
  require_forecast_coverage = true;
}

abbrev forecast : ℕ → ℕ → Text → Text → Forecast sky
forecast place wind start end = record {
  place = place;
  wind_speed = some wind;
  precipitation_rate = none;
  soil_moisture = some 90;
  valid_from = start;
  valid_to = end;
}

abbrev forecasts : List (Forecast sky)
forecasts =
    forecast 3 5 (codes "2") (codes "4")
    ∷ forecast 3 9 (codes "4") (codes "6")
    ∷ forecast 9 1 (codes "0") (codes "9")
    ∷ []

abbrev spraying : FieldTask sky
spraying = record {
  task_id = codes "t1";
  operation_type = codes "SPRAY";
  location_ref = codes "f";
  deadline = codes "7";
}

abbrev hauling : FieldTask sky
hauling = record {
  task_id = codes "t2";
  operation_type = codes "HAUL";
  location_ref = codes "f";
  deadline = codes "7";
}

apply_weather_filter_test :
    apply_weather_filter sky
      (spraying ∷ hauling ∷ [])
      (record { location_id = codes "f"; place = 4 } ∷ [])
      forecasts
      (some windy)
      1
    ≡ record {
      kept = spraying ∷ hauling ∷ [];
      infeasible = [];
      blocked = (codes "t1", (1, 1) ∷ (5, 7) ∷ []) ∷ [];
    }
unfolding apply_weather_filter filter_orders by_location site_coords nearest filter_conservative
    compliant_intervals get put contains subtract_intervals merge_intervals merge_sorted merge_from
    sorted_by cut_all cut
apply_weather_filter_test = refl

abbrev nothing_yet : Weathered sky
nothing_yet = record { kept = []; infeasible = []; blocked = [] }

filter_conservative-exact_example :
    let horizon = coverage_horizon sky spraying 1 in
    let safe = any (safe_in sky windy (codes "wind" ∷ []) horizon) forecasts in
    let after =
      filter_conservative sky windy (codes "wind" ∷ []) forecasts 1 spraying nothing_yet in
    (after.kept ≡ (if safe then [] ++ spraying ∷ [] else []))
    × (after.infeasible
        ≡ (if safe then [] else [] ++ (spraying.task_id, spraying.operation_type) ∷ []))
    × (blocked_at sky windy (codes "wind" ∷ []) 6 spraying.task_id after.blocked ≡ (
        safe
        && (covers 6 horizon && not (any (safe_at sky windy (codes "wind" ∷ []) 6) forecasts))))
unfolding get
filter_conservative-exact_example =
    filter_conservative-exact sky windy (codes "wind" ∷ []) forecasts 1 6 spraying nothing_yet refl
