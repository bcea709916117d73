-- ===== src/Cache/Entry.antt =====
-- The entries of `gh cache list --json id,key,ref,createdAt,sizeInBytes`, and `_when` of
-- scripts/ci/cache_gc.py. A `createdAt` is held as the parts of its text, `2026-09-21T05:00:00.12345Z`,
-- the form in which the service writes it.
use sp1_lean.Base.{
  ℕ, ◌+◌, ◌-◌, ◌*◌, ◌/◌, ◌%◌, Bool, ◌&&◌, ◌||◌, not, [], ◌∷◌, ◌++◌, Text, codes, ltb, nat_beq,
  if◌then◌else◌, get_elem?, or_else,
}

pub record Stamp : Type 0 where
  pub year : ℕ
  pub month : ℕ
  pub day : ℕ
  pub hour : ℕ
  pub minute : ℕ
  pub second : ℕ
  -- the digits behind the point, with no point if there are none
  pub fraction : Text

pub record Entry : Type 0 where
  pub id : ℕ
  pub key : Text
  pub ref : Text
  pub created_at : Stamp
  pub size_in_bytes : ℕ

unfoldable pub is_leap : ℕ → Bool
is_leap y = nat_beq (y % 4) 0 && (not (nat_beq (y % 100) 0) || nat_beq (y % 400) 0)

-- The days of a year before its month m.
unfoldable pub days_before_month : ℕ → ℕ → ℕ
unfolding is_leap
days_before_month y m =
    or_else
      (get_elem? (0 ∷ 31 ∷ 59 ∷ 90 ∷ 120 ∷ 151 ∷ 181 ∷ 212 ∷ 243 ∷ 273 ∷ 304 ∷ 334 ∷ []) (m - 1)) 0
    + (if ltb 2 m && is_leap y then 1 else 0)

-- The days from 0001-01-01 to a date.
unfoldable pub ordinal : ℕ → ℕ → ℕ → ℕ
unfolding days_before_month
ordinal y m d =
    (y - 1) * 365 + (y - 1) / 4 - (y - 1) / 100 + (y - 1) / 400 + days_before_month y m + (d - 1)

-- Microseconds, the resolution of a datetime, since 0001-01-01T00:00:00Z.
abbrev pub Instant : Type 0
Instant = ℕ

-- `_when`: the fraction of a second is dropped.
unfoldable pub when_stamp : Stamp → Instant
unfolding ordinal
when_stamp s =
    (((ordinal s.year s.month s.day * 24 + s.hour) * 60 + s.minute) * 60 + s.second) * 1000000

unfoldable pub when : Entry → Instant
unfolding when_stamp
when e = when_stamp e.created_at

abbrev pub minutes : ℕ → ℕ
minutes n = n * 60000000

-- A number in decimal, on two digits or on four.
abbrev pub digit : ℕ → ℕ
digit n = b'0' + n % 10

abbrev pub two_digits : ℕ → Text
two_digits n = digit (n / 10) ∷ digit n ∷ []

abbrev pub four_digits : ℕ → Text
four_digits n = digit (n / 1000) ∷ digit (n / 100) ∷ digit (n / 10) ∷ digit n ∷ []

abbrev pub fraction_part : Text → Text
fraction_part [] = []
fraction_part (d ∷ ds) = codes "." ++ (d ∷ ds)

-- The text of `createdAt`.
unfoldable pub created_text : Stamp → Text
created_text s =
    four_digits s.year
    ++ (codes "-"
        ++ (two_digits s.month
            ++ (codes "-"
                ++ (two_digits s.day
                    ++ (codes "T"
                        ++ (two_digits s.hour
                            ++ (codes ":"
                                ++ (two_digits s.minute
                                    ++ (codes ":"
                                        ++ (two_digits s.second
                                            ++ (fraction_part s.fraction ++ codes "Z")))))))))))

abbrev pub main_ref : Text
main_ref = codes "refs/heads/main"
