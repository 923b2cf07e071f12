-- ===== src/Axis/Examples.antt =====
-- The theorem about `dayText` at a leap day.
use inc_visage.Common.{◌≡◌, some, arith}
use inc_visage.Axis.{months_array}
use inc_visage.Axis.Days.{days, DayText, day_text, IsDayOf, day_text-IsDayOf}

day_text-IsDayOf_example : (t : DayText) × (day_text 60 ≡ some t) × IsDayOf days months_array 60 t
day_text-IsDayOf_example = day_text-IsDayOf 60 (omega arith) (omega arith)
