-- ===== src/Cron/Examples.antt =====
-- The properties of the cron parser at concrete expressions.
use distributed_task_schedul.Prelude.{
  ℕ, ◌≡◌, ◌*◌, ◌∷◌, [], ◌<◌, refl, ◌≤◌, ◌+◌, some, arith, true, false, ◌≢◌, none,
}
use distributed_task_schedul.Cron.Text.{
  Text, asterisk, fields, cut, non_empty, atoi, is_space, digits, digits_from, positive_int,
}
use distributed_task_schedul.Cron.Schedule.{
  search, CronFields, five_fields, parse_cron, matches_at, minute_ns, match_cron_field, match_step,
  at, crashes, next_of, max_iterations, divides,
}
use distributed_task_schedul.Cron.Calendar.{day_of, month_of, weekday_of, minute_of}
use distributed_task_schedul.Cron.Next.{parse_cron-crashes, parse_cron_complete, parse_cron-next}
use distributed_task_schedul.Cron.Fields.{match_cron_field-means, span}

abbrev star : Text
star = asterisk ∷ []

-- "*/15 * * * *"
abbrev quarters : Text
quarters = 42 ∷ 47 ∷ 49 ∷ 53 ∷ 32 ∷ 42 ∷ 32 ∷ 42 ∷ 32 ∷ 42 ∷ 32 ∷ 42 ∷ []

abbrev quarter_fields : CronFields
quarter_fields = record {
  minute_field = 42 ∷ 47 ∷ 49 ∷ 53 ∷ [];
  hour_field = star;
  dom_field = star;
  month_field = star;
  dow_field = star;
}

-- "*/0 * * * *"
abbrev zero_step : Text
zero_step = 42 ∷ 47 ∷ 48 ∷ 32 ∷ 42 ∷ 32 ∷ 42 ∷ 32 ∷ 42 ∷ 32 ∷ 42 ∷ []

abbrev zero_fields : CronFields
zero_fields = record quarter_fields { minute_field = 42 ∷ 47 ∷ 48 ∷ [] }

fields-quarters : five_fields (fields quarters) ≡ some quarter_fields
unfolding five_fields fields cut non_empty is_space
fields-quarters = refl

fields-zero_step : five_fields (fields zero_step) ≡ some zero_fields
unfolding five_fields fields cut non_empty is_space
fields-zero_step = refl

-- 29 February 2024 was a Thursday.
leap_day : (day_of 28486080 ≡ 29) × (month_of 28486080 ≡ 2) × (weekday_of 28486080 ≡ 4)
unfolding day_of month_of weekday_of
leap_day = (refl, refl, refl)

-- Minute 58 of the epoch: the next quarter is its minute 60.
quarter_found : parse_cron quarters (58 * minute_ns) ≡ at (60 * minute_ns)
unfolding parse_cron five_fields fields cut non_empty is_space next_of search matches_at
    match_cron_field match_step atoi digits digits_from positive_int divides minute_of
quarter_found = refl

parse_cron-next_example :
    (k : ℕ) × (60 * minute_ns ≡ k * minute_ns)
    × (58 * minute_ns < 60 * minute_ns)
    × (60 * minute_ns ≤ 58 * minute_ns + max_iterations * minute_ns)
    × (matches_at quarter_fields k ≡ some true)
    × ((j : ℕ) → 58 * minute_ns < j * minute_ns → j < k → matches_at quarter_fields j ≡ some false)
parse_cron-next_example =
    parse_cron-next quarters (58 * minute_ns) (60 * minute_ns) quarter_fields fields-quarters
      quarter_found

sixty_matches : matches_at quarter_fields 60 ≡ some true
unfolding matches_at match_cron_field match_step atoi digits digits_from positive_int divides
    minute_of
sixty_matches = refl

quarters_safe : (j : ℕ) → matches_at quarter_fields j ≢ none
unfolding matches_at match_cron_field match_step atoi digits digits_from positive_int divides
quarters_safe j e = ground (arith, e)

parse_cron_complete_example :
    (t : ℕ) × (parse_cron quarters (58 * minute_ns) ≡ at t) × (t ≤ 60 * minute_ns)
parse_cron_complete_example =
    parse_cron_complete quarters (58 * minute_ns) 60 quarter_fields fields-quarters sixty_matches
      (omega arith) (omega arith) (λ j h. quarters_safe j)

parse_cron-crashes_example : parse_cron zero_step (58 * minute_ns) ≡ crashes
parse_cron-crashes_example =
    parse_cron-crashes zero_step (58 * minute_ns) zero_fields fields-zero_step refl

-- 1-5 at 3.
match_cron_field-means_example : match_cron_field (49 ∷ 45 ∷ 53 ∷ []) 3 ≡ some true
match_cron_field-means_example = match_cron_field-means (span 1 5) 3 (omega arith, omega arith)
