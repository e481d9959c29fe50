-- ===== src/Execution/Start/Times.antt =====
-- reconciliation_execution_service.py: `_wall_time`, `_remote_time`, the window with its buffers, and
-- the orders in it.
use raj_data_handle.Base.{
  String, Bool, false, ◌&&◌, Option, none, some, List, [], ◌∷◌, Result, ok, err, ◌>>=◌,
  execution_error, zone_not_found, attribute_error, leb, if◌then◌else◌,
}
use raj_data_handle.Base.Int.{ℤ}
use raj_data_handle.Text.{strip}
use raj_data_handle.Value.{Value, null, dict, Fields, get, str_of}
use raj_data_handle.Payment.{DateTime}
use raj_data_handle.Import.Parse.{first_parsed, in_zone, is_blank}
use raj_data_handle.Remote.Orders.{int_or}
use raj_data_handle.Execution.Start.Inputs.{Front, item_of}

module _ (front : Front) where
  open front use {calendar}

  parsed_wall : Option calendar.Zone → Option calendar.Moment → Result DateTime
  parsed_wall none m = err execution_error
  parsed_wall (some zone) none = err execution_error
  parsed_wall (some zone) (some m) =
      ok (if calendar.is_naive m then calendar.replaced zone m else calendar.converted zone m)

  -- `_wall_time`
  unfoldable pub wall_time : String → (zone_name : String) → Result DateTime
  unfolding parsed_wall
  wall_time s zone_name = parsed_wall (calendar.zone_info zone_name) (front.fromisoformat s)

  in_found_zone : Option calendar.Zone → Option calendar.Moment → Result (Option DateTime)
  in_found_zone _ none = ok none
  in_found_zone none (some m) = err zone_not_found
  in_found_zone (some zone) (some m) = ok (in_zone calendar zone (some m))

  -- `_remote_time`
  unfoldable pub remote_time : Value → (zone_name : String) → Result (Option DateTime)
  unfolding in_found_zone
  remote_time null zone_name = ok none
  remote_time v zone_name =
      if is_blank calendar (str_of v)
      then ok none
      else in_found_zone (calendar.zone_info zone_name)
          (first_parsed calendar calendar.parsers (strip (str_of v)))

  -- `remote_lower <= parsed <= remote_upper`
  abbrev pub is_within_window : (lower upper : DateTime) → Option DateTime → Bool
  is_within_window lower upper none = false
  is_within_window lower upper (some t) = leb lower.wall t.wall && leb t.wall upper.wall

  -- `filtered_remote`
  unfoldable pub in_window :
      (time_field zone_name : String) (lower upper : DateTime) → List Fields → Result (List Fields)
  in_window time_field zone_name lower upper [] = ok []
  in_window time_field zone_name lower upper (order ∷ orders) = do
    time ← remote_time (get time_field order) zone_name
    rest ← in_window time_field zone_name lower upper orders
    ok (if is_within_window lower upper time then order ∷ rest else rest)

  -- the body of the `try` around the two times
  unfoldable pub window_bounds : Value → (zone_name : String) → Result (DateTime × DateTime)
  window_bounds window zone_name = do
    start ← item_of "start" window
    lower ← wall_time (str_of start) zone_name
    stop ← item_of "end" window
    upper ← wall_time (str_of stop) zone_name
    ok (lower, upper)

-- `window.get(key)`
get_of : String → Value → Result Value
get_of key (dict _ fields) = ok (get key fields)
get_of key _ = err attribute_error

-- a bound moved by as many hours as the window says
unfoldable pub buffered :
    (shift : DateTime → ℤ → Result DateTime) → (key : String) → Value → DateTime → Result DateTime
unfolding get_of
buffered shift key window t = do given ← get_of key window; hours ← int_or given 0; shift t hours
