-- ===== src/Tests/Scheduling.antt =====
-- cron.py on a range with steps and on a line of weekdays.
use bay.Prelude.{ℕ, ◌≤◌, ◌≡◌, ◌↔◌, refl, [], ◌∷◌}
use bay.Prelude.Assoc.{In}
use bay.Prelude.Result.{ok}
use bay.Prelude.Text.{
  words, word_parts, is_space, strip_prefix, split, partition, every, is_digit, read_digits, lower,
  lower_by, concat, join, show_nat, show_fuel, has_char,
}
use bay.Cron.{
  field, all_values, number, index_from, show_values, sorted_set, insert_value, get_elem?,
  range_values, range_from, two_digits, Range, minute, values, range_of, to_on_calendar,
}
use bay.Cron.Ranges.{Inside, Selected}
use bay.Cron.Bounds.{values_lem}

weekdays_test : to_on_calendar (λ s. s) "30 2 * * 1-5" ≡ ok "Mon,Tue,Wed,Thu,Fri *-*-* 02:30:00 UTC"
unfolding to_on_calendar words word_parts is_space field strip_prefix all_values split values
    range_of partition number every is_digit read_digits index_from lower lower_by concat
    show_values join sorted_set insert_value get_elem? range_values range_from two_digits show_nat
    show_fuel has_char
weekdays_test = refl

by_tens : values (λ s. s) minute "10-35/10" ≡ ok (10 ∷ 20 ∷ 30 ∷ [])
unfolding values range_of partition every is_digit read_digits number range_values range_from
by_tens = refl

values_lem_example :
    (r : Range) × (range_of (λ s. s) minute "10-35/10" ≡ ok r)
    × Inside minute r
    × (r.start ≤ r.end)
    × ((v : ℕ) → In v (10 ∷ 20 ∷ 30 ∷ []) ↔ Selected minute r v)
values_lem_example = values_lem (λ s. s) minute "10-35/10" (10 ∷ 20 ∷ 30 ∷ []) by_tens
