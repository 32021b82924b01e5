-- ===== src/Clock.antt =====
-- What the program uses of Go's `time`: an instant with the zone that it is read in.
use frigate_notifications.Prelude.{
  ℕ, ◌+◌, ◌-◌, ◌*◌, ◌/◌, ◌%◌, [], ◌∷◌, ◌++◌, Text, ltb, if◌then◌else◌, lit, List, get_elem?, none,
  some,
}
use frigate_notifications.Prelude.Numerals.{decimal}
use frigate_notifications.Prelude.Int.{ℤ, pos, pos_part, neg_part}

abbrev pub second : ℕ
second = 1_000_000_000

abbrev pub minute : ℕ
minute = 60 * second

abbrev pub hour : ℕ
hour = 60 * minute

abbrev pub day : ℕ
day = 24 * hour

-- A zone gives its offset east of UTC, in seconds, at each second since the epoch.
abbrev pub Location : Type 0
Location = ℕ → ℤ

abbrev pub utc : Location
utc = λ _. pos 0

pub record Time : Type 0 where
  -- nanoseconds since the epoch
  pub instant : ℕ
  pub location : Location

-- t.In(loc)
abbrev pub at_location : Time → Location → Time
at_location t l = record { instant = t.instant; location = l }

abbrev pub unix : Time → ℕ
unix t = t.instant / second

-- The local time of day in whole seconds.
unfoldable pub second_of_day : Time → ℕ
second_of_day t =
    let offset = t.location (unix t) in
    (unix t + pos_part offset + (86400 - neg_part offset % 86400)) % 86400

-- t.Hour(), t.Minute(), t.Second()
abbrev pub hour_of : Time → ℕ
hour_of t = second_of_day t / 3600

abbrev pub minute_of : Time → ℕ
minute_of t = second_of_day t % 3600 / 60

abbrev pub second_of : Time → ℕ
second_of t = second_of_day t % 60

-- Days since the epoch as year, month and day of the Gregorian calendar, counted in eras of 400 years
-- that begin on the first of March.
civil : ℕ → ℕ × ℕ × ℕ
civil days =
    let z = days + 719468 in
    let era = z / 146097 in
    let doe = z % 146097 in
    let yoe = (doe - doe / 1460 + doe / 36524 - doe / 146096) / 365 in
    let doy = doe - (365 * yoe + yoe / 4 - yoe / 100) in
    let mp = (5 * doy + 2) / 153 in
    let d = doy - (153 * mp + 2) / 5 + 1 in
    let m = if ltb mp 10 then mp + 3 else mp - 9 in
    (yoe + era * 400 + (if ltb 2 m then 0 else 1), m, d)

two_digits : ℕ → Text
two_digits n = (b'0' + n / 10) ∷ (b'0' + n % 10) ∷ []

abbrev month_names : List Text
month_names =
    lit "Jan"
    ∷ lit "Feb"
    ∷ lit "Mar"
    ∷ lit "Apr"
    ∷ lit "May"
    ∷ lit "Jun"
    ∷ lit "Jul"
    ∷ lit "Aug"
    ∷ lit "Sep"
    ∷ lit "Oct"
    ∷ lit "Nov"
    ∷ lit "Dec"
    ∷ []

-- "Jan" for 1.
abbrev month_name : ℕ → Text
month_name m = elim (get_elem? month_names (m - 1)) [ none ↦ [] | some name ↦ name ]

-- t.Format("2006010215")
unfoldable pub hour_stamp : Time → Text
unfolding civil two_digits
hour_stamp t =
    let offset = t.location (unix t) in
    let (y, m, d) = civil ((unix t + pos_part offset - neg_part offset) / 86400) in
    two_digits (y / 100)
    ++ (two_digits (y % 100) ++ (two_digits m ++ (two_digits d ++ two_digits (hour_of t))))

-- t.UTC().Format("Jan 2 15:04 UTC") of an instant.
unfoldable pub short_stamp : ℕ → Text
unfolding civil two_digits
short_stamp instant =
    let t : Time = record { instant = instant; location = utc } in
    let (y, m, d) = civil (unix t / 86400) in
    month_name m
    ++ (lit " "
        ++ (decimal d
            ++ (lit " "
                ++ (two_digits (hour_of t)
                    ++ (lit ":" ++ (two_digits (minute_of t) ++ lit " UTC"))))))

-- t.UTC().Format(time.RFC3339) of an instant.
unfoldable pub rfc3339 : ℕ → Text
unfolding civil two_digits
rfc3339 instant =
    let t : Time = record { instant = instant; location = utc } in
    let (y, m, d) = civil (unix t / 86400) in
    two_digits (y / 100)
    ++ (two_digits (y % 100)
        ++ (lit "-"
            ++ (two_digits m
                ++ (lit "-"
                    ++ (two_digits d
                        ++ (lit "T"
                            ++ (two_digits (hour_of t)
                                ++ (lit ":"
                                    ++ (two_digits (minute_of t)
                                        ++ (lit ":"
                                            ++ (two_digits (second_of t) ++ lit "Z")))))))))))
