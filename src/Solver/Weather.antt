-- ===== src/Solver/Weather.antt =====
-- Weather windows: `apply_weather_filter` of src/fl_op/solver/enforcement.py with what it calls.
-- Floats and places are parameters, epoch seconds natural numbers.
pub mod Covered
mod Tests
use fl_op.Base.{
  ℕ, ◌+◌, min, max, Option, none, some, or_else, Bool, true, false, ◌&&◌, ◌||◌, not, List, [], ◌∷◌,
  ◌++◌, Text, text_eq, codes, contains, if◌then◌else◌, any, keep, ltb, leb, Keyed,
}
use fl_op.Base.Dict.{Dict, get, put}
use fl_op.Base.Strip.{is_empty}
use fl_op.Solver.Intervals.{Interval, merge_intervals, subtract_intervals}

-- Floats, pairs of coordinates with the square of their distance, and `datetime.fromisoformat` with
-- the time stamp of its result; none is a ValueError.
pub record Sky : Type 1 where
  pub Float : Type 0
  pub gt : Float → Float → Bool
  pub Place : Type 0
  pub places : Keyed Place
  pub distance : Place → Place → Float
  pub from_iso_format : Text → Option ℕ

-- `ROUTING_HORIZON_S`
abbrev pub routing_horizon_s : ℕ
routing_horizon_s = 2592000

module _ (s : Sky) where
  pub record Forecast : Type 0 where
    pub place : s.Place
    pub wind_speed : Option s.Float
    pub precipitation_rate : Option s.Float
    pub soil_moisture : Option s.Float
    pub valid_from : Text
    pub valid_to : Text

  -- `WeatherPolicySpec`
  pub record WeatherPolicy : Type 0 where
    pub sensitivity : Dict Text (List Text)
    pub max_wind_ms : s.Float
    pub max_rain_mm_per_h : s.Float
    pub max_soil_moisture_pct : s.Float
    pub require_forecast_coverage : Bool

  -- What is read of an order and of a site.
  pub record FieldTask : Type 0 where
    pub task_id : Text
    pub operation_type : Text
    pub location_ref : Text
    pub deadline : Text

  pub record Site : Type 0 where
    pub location_id : Text
    pub place : s.Place

  -- What the filter returns. A task that is dropped is named with its operation.
  pub record Weathered : Type 0 where
    pub kept : List FieldTask
    pub infeasible : List (Text × Text)
    pub blocked : Dict Text (List Interval)

  abbrev exceeds : Option s.Float → s.Float → Bool
  exceeds none limit = false
  exceeds (some v) limit = s.gt v limit

  -- `_window_ok`
  abbrev pub window_ok : WeatherPolicy → List Text → Forecast → Bool
  window_ok weather dims forecast =
      not (contains (codes "wind") dims && exceeds forecast.wind_speed weather.max_wind_ms)
      && not (
          contains (codes "rain") dims
          && exceeds forecast.precipitation_rate weather.max_rain_mm_per_h)
      && not (
          contains (codes "soil-moisture") dims
          && exceeds forecast.soil_moisture weather.max_soil_moisture_pct)

  abbrev window_from : Option ℕ → Option ℕ → Option Interval
  window_from none end = none
  window_from (some start) end =
      let until = or_else end (start + routing_horizon_s) in
      if ltb until start then none else some (start, until)

  -- `_forecast_epoch_interval`
  abbrev pub forecast_epoch_interval : Forecast → Option Interval
  forecast_epoch_interval forecast =
      window_from (s.from_iso_format forecast.valid_from) (s.from_iso_format forecast.valid_to)

  -- `_coverage_horizon`
  abbrev pub coverage_horizon : FieldTask → ℕ → Interval
  coverage_horizon order now =
      (now, max now (or_else (s.from_iso_format order.deadline) (now + routing_horizon_s)))

  abbrev clip : Interval → Option Interval → List Interval
  clip horizon none = []
  clip horizon (some i) =
      let clipped : Interval = (max i.0 horizon.0, min i.1 horizon.1) in
      if leb clipped.0 clipped.1 then clipped ∷ [] else []

  -- The loop of `_filter_conservative`.
  unfoldable pub compliant_intervals :
      WeatherPolicy → List Text → Interval → List Forecast → List Interval
  compliant_intervals weather dims horizon [] = []
  compliant_intervals weather dims horizon (window ∷ windows) =
      let here = clip horizon (forecast_epoch_interval window) in
      let rest = compliant_intervals weather dims horizon windows in
      if window_ok weather dims window then here ++ rest else rest

  abbrev block : Text → List Interval → Dict Text (List Interval) → Dict Text (List Interval)
  block task_id intervals blocked =
      if is_empty intervals then blocked else put task_id intervals blocked

  abbrev drop_task : FieldTask → Weathered → Weathered
  drop_task order a = record a {
    infeasible = a.infeasible ++ (order.task_id, order.operation_type) ∷ [];
  }

  abbrev keep_task : FieldTask → List Interval → Weathered → Weathered
  keep_task order intervals a = record a {
    kept = a.kept ++ order ∷ [];
    blocked = block order.task_id intervals a.blocked;
  }

  -- `_filter_conservative`
  unfoldable pub filter_conservative :
      WeatherPolicy → List Text → List Forecast → ℕ → FieldTask → Weathered → Weathered
  unfolding compliant_intervals merge_intervals subtract_intervals
  filter_conservative weather dims windows now order a =
      let horizon = coverage_horizon order now in
      let compliant = merge_intervals (compliant_intervals weather dims horizon windows) in
      if is_empty compliant
      then drop_task order a
      else keep_task order (subtract_intervals (horizon ∷ []) compliant) a

  abbrev some_interval : Option Interval → List Interval
  some_interval none = []
  some_interval (some i) = i ∷ []

  -- The intervals of the windows that do not comply.
  unfoldable pub refused_intervals : WeatherPolicy → List Text → List Forecast → List Interval
  refused_intervals weather dims [] = []
  refused_intervals weather dims (window ∷ windows) =
      let here = some_interval (forecast_epoch_interval window) in
      let rest = refused_intervals weather dims windows in
      if window_ok weather dims window then rest else here ++ rest

  unfoldable pub filter_open :
      WeatherPolicy → List Text → List Forecast → FieldTask → Weathered → Weathered
  unfolding refused_intervals
  filter_open weather dims windows order a =
      if is_empty windows || any (window_ok weather dims) windows
      then keep_task order (refused_intervals weather dims windows) a
      else drop_task order a

  abbrev Locations : Type 0
  Locations = Dict s.Place (List Forecast)

  -- `by_location`
  unfoldable pub by_location : List Forecast → Locations → Locations
  by_location [] groups = groups
  by_location (forecast ∷ forecasts) groups =
      let here = or_else (get ⦃e = s.places⦄ forecast.place groups) [] in
      by_location forecasts (put ⦃e = s.places⦄ forecast.place (here ++ forecast ∷ []) groups)

  -- `min(by_location, key=...)` with its windows: the first of the nearest places
  unfoldable pub nearest : s.Place → s.Place × List Forecast → Locations → List Forecast
  nearest site best [] = best.1
  nearest site best (group ∷ groups) =
      let closer = s.gt (s.distance best.0 site) (s.distance group.0 site) in
      nearest site (if closer then group else best) groups

  unfoldable pub site_coords : List Site → Dict Text s.Place → Dict Text s.Place
  site_coords [] coords = coords
  site_coords (site ∷ sites) coords = site_coords sites (put site.location_id site.place coords)

  -- `nearest_windows`; there is a place, since there is a forecast
  abbrev pub nearest_windows : Locations → Option s.Place → List Forecast
  nearest_windows groups none = []
  nearest_windows [] (some site) = []
  nearest_windows (group ∷ groups) (some site) = nearest site group groups

  -- One order, by the dimensions its operation is sensitive to.
  abbrev pub filter_one :
      WeatherPolicy → ℕ → List Forecast → FieldTask → List Text → Weathered → Weathered
  filter_one weather now windows order [] a = record a { kept = a.kept ++ order ∷ [] }
  filter_one weather now windows order (dim ∷ dims) a =
      if weather.require_forecast_coverage
      then filter_conservative weather (dim ∷ dims) windows now order a
      else filter_open weather (dim ∷ dims) windows order a

  unfoldable pub filter_orders :
      WeatherPolicy → ℕ → Locations → Dict Text s.Place → List FieldTask → Weathered → Weathered
  unfolding filter_conservative filter_open
  filter_orders weather now groups coords [] a = a
  filter_orders weather now groups coords (order ∷ orders) a =
      let windows = nearest_windows groups (get order.location_ref coords) in
      let dims = or_else (get order.operation_type weather.sensitivity) [] in
      filter_orders weather now groups coords orders (filter_one weather now windows order dims a)

  -- `apply_weather_filter`
  unfoldable pub apply_weather_filter :
      List FieldTask → List Site → List Forecast → Option WeatherPolicy → ℕ → Weathered
  unfolding filter_orders by_location site_coords
  apply_weather_filter orders sites forecasts none now = record {
    kept = orders;
    infeasible = [];
    blocked = [];
  }
  apply_weather_filter orders sites forecasts (some weather) now =
      if is_empty weather.sensitivity || is_empty forecasts
      then record { kept = orders; infeasible = []; blocked = [] }
      else filter_orders weather now (by_location forecasts []) (site_coords sites []) orders
          (record { kept = []; infeasible = []; blocked = [] })
