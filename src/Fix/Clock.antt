-- ===== src/Fix/Clock.antt =====
-- The time stamp of crates/atomr-fix/src/session.rs, from the seconds since the epoch that the clock
-- gives. Days are counted from a `u64`, so the branch for negative ones is not taken.
use atomr.Base.{
  ℕ, zero, suc, ◌+◌, ◌-◌, ◌*◌, ◌/◌, ◌%◌, ◌≡◌, refl, [], ◌∷◌, ◌++◌, leb, ltb, if◌then◌else◌, Text,
  codes, to_string, length, decimal,
}

unfoldable pub zeros : ℕ → Text
zeros zero = []
zeros (suc n) = b'0' ∷ zeros n

-- `format!("{n:0width}")`
unfoldable pub padded : ℕ → ℕ → Text
padded width n = zeros (width - length (to_string n)) ++ to_string n

unfoldable pub civil_of_era : ℕ → ℕ → ℕ × ℕ × ℕ
civil_of_era era doe =
    let yoe = (doe - doe / 1460 + doe / 36524 - doe / 146096) / 365 in
    let y = yoe + era * 400 in
    let doy = doe - (365 * yoe + yoe / 4 - yoe / 100) in
    let mp = (5 * doy + 2) / 153 in
    let d = doy - (153 * mp + 2) / 5 + 1 in
    let m = if ltb mp 10 then mp + 3 else mp - 9 in (if leb m 2 then y + 1 else y, m, d)

-- Year, month and day.
unfoldable pub civil_from_days : ℕ → ℕ × ℕ × ℕ
civil_from_days z =
    let days = z + 719468 in let era = days / 146097 in civil_of_era era (days - era * 146097)

unfoldable pub sending_time : ℕ → Text
sending_time now =
    let (y, mo, d) = civil_from_days (now / 86400) in
    let secs_of_day = now % 86400 in
    padded 4 y
    ++ (padded 2 mo
        ++ (padded 2 d
            ++ (b'-'
                ∷ (padded 2 (secs_of_day / 3600)
                    ++ (b':'
                        ∷ (padded 2 (secs_of_day % 3600 / 60)
                            ++ (b':' ∷ padded 2 (secs_of_day % 60))))))))

-- 29 February 2024, noon.
leap_day : sending_time 1709208000 ≡ codes "20240229-12:00:00"
unfolding sending_time civil_from_days civil_of_era padded zeros decimal
leap_day = refl
