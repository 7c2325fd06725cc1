-- ===== src/Dca/Interval/RoundTrip.antt =====
-- A printed interval reads back.
use clawmes.Base.{
  ℕ, zero, suc, ◌+◌, ◌*◌, ◌/◌, ◌%◌, ◌≤◌, ◌<◌, ◌≡◌, refl, ◌∙◌, ap, inl, inr, false, none, some, [],
  ◌∷◌, arith, Bool-cases, Option-cases, List-cases, ltb, ◌||◌, if◌then◌else◌, ◌==◌,
}
use clawmes.Delegation.Hex.{Text}
use clawmes.Dca.Interval.{
  Classes, unit_seconds, min_interval_seconds, max_interval_seconds, skip_spaces, read_digits,
  read_number, read_unit, parse_interval, decimal, with_unit, format_interval,
}

-- An interval in whole minutes and between the bounds.
unfoldable pub IsInterval : ℕ → Type 0
IsInterval s = (min_interval_seconds ≤ s) × (s ≤ max_interval_seconds) × (s % 60 ≡ 0)

unit_seconds-whole : (c u n : ℕ) → unit_seconds c ≡ some u → n * u % 60 ≡ 0
unit_seconds-whole c u n h = ground arith

-- The classes hold of the ASCII digits and of the unit letters as Python documents.
pub record IsAscii (classes : Classes) : Type 0 where
  pub digit : (d : ℕ) → d < 10 → classes.digit_of (48 + d) ≡ some d
  pub digit_solid : (d : ℕ) → d < 10 → classes.is_space (48 + d) ≡ false
  pub unit : (c u : ℕ) → unit_seconds c ≡ some u → classes.digit_of c ≡ none
  pub unit_solid : (c u : ℕ) → unit_seconds c ≡ some u → classes.is_space c ≡ false

module _ (classes : Classes) where
  read_unit-whole : (s : Text) (u n : ℕ) → read_unit classes s ≡ some u → n * u % 60 ≡ 0
  unfolding read_unit
  read_unit-whole s u n h = elim (List-cases (skip_spaces classes s)) [
    | inl empty ↦ (let never : none ≡ some u = rw (read_unit, empty) at h in ground arith)
    | inr (c, rest, e) ↦ elim (List-cases (skip_spaces classes rest)) [
      | inl done ↦ unit_seconds-whole c u n (rw (read_unit, e, done) at h)
      | inr (d, more, f) ↦ (let never : none ≡ some u = rw (read_unit, e, f) at h in ground arith)
    ]
  ]

  pub parse_interval-IsInterval :
      (raw : Text) (s : ℕ) → parse_interval classes raw ≡ some s → IsInterval s
  unfolding parse_interval IsInterval
  parse_interval-IsInterval raw s h =
      elim (Option-cases (read_number classes (skip_spaces classes raw))) [
        | inl unread ↦
            (let never : none ≡ some s = rw (parse_interval, unread) at h in ground arith)
        | inr ((n, rest), number) ↦ elim (Option-cases (read_unit classes rest)) [
          | inl unread ↦
              (let never : none ≡ some s = rw (parse_interval, number, unread) at h in ground arith)
          | inr (u, unit) ↦
              let whole = read_unit-whole rest u n unit in
              let bounded : (if ltb (n * u) 60 || ltb 31_536_000 (n * u)
                    then none
                    else some (n * u))
                  ≡ some s =
                rw (parse_interval, number, unit) at h in
              ground (arith, whole, bounded)
        ]
      ]

module _ (classes : Classes) (ascii : IsAscii classes) where
  skip-solid : (c : ℕ) (s : Text) → classes.is_space c ≡ false → skip_spaces classes (c ∷ s) ≡ c ∷ s
  unfolding skip_spaces
  skip-solid c s h = rw (skip_spaces, h) refl

  skip-decimal :
      (fuel n : ℕ) (out : Text)
      → n < fuel
      → skip_spaces classes (decimal fuel n out) ≡ decimal fuel n out
  unfolding decimal
  skip-decimal zero n out h = absurd (omega (arith, h))
  skip-decimal (suc fuel) n out h = elim (Bool-cases (ltb n 10)) [
    | inl small ↦
        rw (decimal, small) (skip-solid (48 + n) out (ascii.digit_solid n (ground (arith, small))))
    | inr big ↦
        rw (decimal, big)
          (skip-decimal fuel (n / 10) ((48 + n % 10) ∷ out) (ground (arith, big, h)))
  ]

  read_digits-next :
      (n d c : ℕ) (s : Text)
      → classes.digit_of c ≡ some d
      → read_digits classes n (c ∷ s) ≡ read_digits classes (n * 10 + d) s
  unfolding read_digits
  read_digits-next n d c s h = rw (read_digits, h) refl

  -- The digits of a number before a text read as that number before the text.
  read_number-decimal :
      (fuel n : ℕ) (out : Text)
      → n < fuel
      → read_number classes (decimal fuel n out) ≡ some (read_digits classes n out)
  unfolding decimal read_number
  read_number-decimal zero n out h = absurd (omega (arith, h))
  read_number-decimal (suc fuel) n out h = elim (Bool-cases (ltb n 10)) [
    | inl small ↦ rw (decimal, small, ascii.digit n (ground (arith, small))) refl
    | inr big ↦
        let digit = ascii.digit (n % 10) (omega arith) in
        let last : n / 10 * 10 + n % 10 ≡ n = omega arith in
        rw
          (
            decimal,
            big,
            read_number-decimal fuel (n / 10) ((48 + n % 10) ∷ out) (ground (arith, big, h)),
            read_digits-next (n / 10) (n % 10) (48 + n % 10) out digit,
            last,
          )
          refl
  ]

  read_unit-letter : (c u : ℕ) → unit_seconds c ≡ some u → read_unit classes (c ∷ []) ≡ some u
  unfolding read_unit skip_spaces
  read_unit-letter c u h = rw (read_unit, skip-solid c [] (ascii.unit_solid c u h)) h

  read_digits-unit :
      (n c u : ℕ) → unit_seconds c ≡ some u → read_digits classes n (c ∷ []) ≡ (n, c ∷ [])
  unfolding read_digits
  read_digits-unit n c u h = rw (read_digits, ascii.unit c u h) refl

  in_bounds :
      (s : ℕ)
      → min_interval_seconds ≤ s
      → s ≤ max_interval_seconds
      → (ltb s min_interval_seconds || ltb max_interval_seconds s) ≡ false
  in_bounds s low high = ground arith

  parse_interval-with_unit :
      (n c u : ℕ)
      → unit_seconds c ≡ some u
      → min_interval_seconds ≤ n * u
      → n * u ≤ max_interval_seconds
      → parse_interval classes (with_unit n c) ≡ some (n * u)
  unfolding parse_interval
  parse_interval-with_unit n c u h low high =
      rw
        (
          parse_interval,
          skip-decimal (suc n) n (c ∷ []) (omega arith),
          read_number-decimal (suc n) n (c ∷ []) (omega arith),
          read_digits-unit n c u h,
          read_unit-letter c u h,
          in_bounds (n * u) low high,
        )
        refl

  -- One of the units of `_format_interval`, which divides the seconds.
  exact :
      (s c u : ℕ)
      → unit_seconds c ≡ some u
      → s / u * u ≡ s
      → min_interval_seconds ≤ s
      → s ≤ max_interval_seconds
      → parse_interval classes (with_unit (s / u) c) ≡ some s
  exact s c u h e low high =
      parse_interval-with_unit (s / u) c u h (rw e low) (rw e high) ∙ ap some e

  parse_interval-format_interval :
      (s : ℕ) → IsInterval s → parse_interval classes (format_interval s) ≡ some s
  unfolding format_interval IsInterval
  parse_interval-format_interval s (low, high, whole) = elim (Bool-cases (s % 604800 == 0)) [
    | inl weeks ↦
        rw (format_interval, weeks) (exact s 119 604800 refl (ground (arith, weeks)) low high)
    | inr no_weeks ↦ elim (Bool-cases (s % 86400 == 0)) [
      | inl days ↦
          rw (format_interval, no_weeks, days)
            (exact s 100 86400 refl (ground (arith, days)) low high)
      | inr no_days ↦ elim (Bool-cases (s % 3600 == 0)) [
        | inl hours ↦
            rw (format_interval, no_weeks, no_days, hours)
              (exact s 104 3600 refl (ground (arith, hours)) low high)
        | inr no_hours ↦
            rw (format_interval, no_weeks, no_days, no_hours)
              (exact s 109 60 refl (omega (arith, whole)) low high)
      ]
    ]
  ]

  -- An interval that /dca accepts is printed as a text that reads back as the same number of seconds,
  -- under the documented character classes of ASCII digits and letters.
  pub format_interval-reads_back :
      (raw : Text) (s : ℕ)
      → parse_interval classes raw ≡ some s
      → parse_interval classes (format_interval s) ≡ some s
  format_interval-reads_back raw s h =
      parse_interval-format_interval s (parse_interval-IsInterval classes raw s h)
