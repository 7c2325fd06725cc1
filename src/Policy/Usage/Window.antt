-- ===== src/Policy/Usage/Window.antt =====
-- The counter against the list of all invocations: a count is the number of those in the window.
use clawmes.Base.{
  ℕ, ◌+◌, ◌≤◌, ◌<◌, ◌≡◌, refl, ap, ◌∙◌, String, none, List, [], ◌∷◌, ◌++◌, arith, if◌then◌else◌,
  length, All, Bool-cases, Option-cases, inl, inr, length-append, leb, ◌&&◌,
}
use clawmes.Policy.Usage.{Buckets, same_key, bucket_of, times_of, evict, record_use, count}
use clawmes.Policy.Usage.Evict.{
  times_of-put_bucket, if_same_key, same_key_eq, evict-append, evict-evict,
}

-- One recorded invocation.
pub record Use : Type 0 where
  pub user : String
  pub tool : String
  pub time : ℕ

module _ (window : ℕ) where
  -- How the counter was used: the invocations so far, newest first, and the last clock reading.
  -- Readings do not fall.
  pub data Trace : List Use → ℕ → Buckets → Type 0 where
    start : Trace [] 0 []
    record_step :
        {h : List Use} {last : ℕ} {st : Buckets} (user tool : String) (now : ℕ)
        → Trace h last st
        → last ≤ now
        → Trace
            (record { user = user; tool = tool; time = now } ∷ h)
            now
            (record_use window user tool now st)
    count_step :
        {h : List Use} {last : ℕ} {st : Buckets} (user tool : String) (now : ℕ)
        → Trace h last st
        → last ≤ now
        → Trace h now (count window user tool now st).1

  -- The invocations of one key that still count at `now`.
  pub count_in : String → String → ℕ → List Use → ℕ
  count_in user tool now [] = 0
  count_in user tool now (c ∷ h) =
      (if same_key c.user c.tool user tool && leb now (c.time + window) then 1 else 0)
      + count_in user tool now h

  -- The time stamps of one key, oldest first.
  times_in : String → String → List Use → List ℕ
  times_in user tool [] = []
  times_in user tool (c ∷ h) =
      if same_key c.user c.tool user tool
      then times_in user tool h ++ c.time ∷ []
      else times_in user tool h

  times_of-record_use :
      (user tool u t : String) (now : ℕ) (st : Buckets)
      → times_of u t (record_use window user tool now st) ≡ (
          if same_key user tool u t
          then evict window now (times_of u t st) ++ now ∷ []
          else times_of u t st)
  unfolding record_use
  times_of-record_use user tool u t now st =
      times_of-put_bucket user tool u t (evict window now (times_of user tool st) ++ now ∷ []) st
      ∙ if_same_key user tool u t (λ a b. times_of a b st) (λ l. evict window now l ++ now ∷ [])

  count_fresh :
      (user tool u t : String) (now : ℕ) (st : Buckets)
      → bucket_of user tool st ≡ none
      → times_of u t st
        ≡ (if same_key user tool u t then evict window now (times_of u t st) else times_of u t st)
  unfolding evict
  count_fresh user tool u t now st fresh = elim (Bool-cases (same_key user tool u t)) [
    | inl same ↦
        let (e, e') = same_key_eq user tool u t same in
        let none_there : bucket_of u t st ≡ none = rw (e, e') at fresh in rw (same, none_there) refl
    | inr other ↦ rw other refl
  ]

  pub times_of-count :
      (user tool u t : String) (now : ℕ) (st : Buckets)
      → times_of u t (count window user tool now st).1
        ≡ (if same_key user tool u t then evict window now (times_of u t st) else times_of u t st)
  unfolding count
  times_of-count user tool u t now st = elim (Option-cases (bucket_of user tool st)) [
    | inl fresh ↦ rw (fresh, count) (count_fresh user tool u t now st fresh)
    | inr (times, found) ↦
        rw (found, count)
          (times_of-put_bucket user tool u t (evict window now times) st
            ∙ rw found at (if_same_key user tool u t (λ a b. times_of a b st) (evict window now)))
  ]

  -- What a later eviction leaves of a bucket is what it leaves of the whole record.
  Trace-agrees :
      {h : List Use} {last : ℕ} {st : Buckets}
      → Trace h last st
      → (user tool : String) (now : ℕ) → last ≤ now
      → evict window now (times_of user tool st) ≡ evict window now (times_in user tool h)
  unfolding times_in
  Trace-agrees start user tool now le = refl
  Trace-agrees (record_step {h} {last} {st} u t now' tr le') user tool now le =
      elim (Bool-cases (same_key u t user tool)) [
        | inl same ↦
            rw (times_of-record_use u t user tool now' st, same)
              (evict-append window now (evict window now' (times_of user tool st))
                (times_in user tool h) (now' ∷ [])
                (evict-evict window now' now (times_of user tool st) le
                  ∙ Trace-agrees tr user tool now (omega arith)))
        | inr other ↦
            rw (times_of-record_use u t user tool now' st, other)
              (Trace-agrees tr user tool now (omega arith))
      ]
  Trace-agrees (count_step {h} {last} {st} u t now' tr le') user tool now le =
      elim (Bool-cases (same_key u t user tool)) [
        | inl same ↦
            rw (times_of-count u t user tool now' st, same)
              (evict-evict window now' now (times_of user tool st) le
                ∙ Trace-agrees tr user tool now (omega arith))
        | inr other ↦
            rw (times_of-count u t user tool now' st, other)
              (Trace-agrees tr user tool now (omega arith))
      ]

  abbrev IsOrdered : List Use → Type 0
  IsOrdered [] = Unit
  IsOrdered (c ∷ h) = All (λ d. d.time ≤ c.time) h × IsOrdered h

  All-weaken : (m n : ℕ) (h : List Use) → m ≤ n → All (λ d. d.time ≤ m) h → All (λ d. d.time ≤ n) h
  All-weaken m n [] le a = tt
  All-weaken m n (c ∷ h) le a = (omega arith, All-weaken m n h le a.1)

  Trace-before :
      {h : List Use} {last : ℕ} {st : Buckets} → Trace h last st → All (λ d. d.time ≤ last) h
  Trace-before start = tt
  Trace-before (record_step {h} {last} u t now tr le) =
      (omega arith, All-weaken last now h le (Trace-before tr))
  Trace-before (count_step {h} {last} u t now tr le) = All-weaken last now h le (Trace-before tr)

  Trace-IsOrdered : {h : List Use} {last : ℕ} {st : Buckets} → Trace h last st → IsOrdered h
  Trace-IsOrdered start = tt
  Trace-IsOrdered (record_step {h} {last} u t now tr le) =
      (All-weaken last now h le (Trace-before tr), Trace-IsOrdered tr)
  Trace-IsOrdered (count_step u t now tr le) = Trace-IsOrdered tr

  count_in_expired :
      (user tool : String) (now y : ℕ) (h : List Use)
      → y + window < now
      → All (λ d. d.time ≤ y) h
      → count_in user tool now h ≡ 0
  unfolding count_in
  count_in_expired user tool now y [] lt a = refl
  count_in_expired user tool now y (c ∷ h) lt a =
      ground (arith, count_in_expired user tool now y h lt a.1)

  length-evict_fresh :
      (now y : ℕ) (xs : List ℕ)
      → now ≤ y + window
      → length (evict window now (xs ++ y ∷ [])) ≡ length (evict window now xs) + 1
  unfolding evict
  length-evict_fresh now y [] h = ground arith
  length-evict_fresh now y (x ∷ xs) h =
      ground (arith, length-evict_fresh now y xs h, length-append xs (y ∷ []))

  length-evict_stale :
      (now y : ℕ) (xs : List ℕ)
      → y + window < now
      → length (evict window now xs) ≡ 0
      → length (evict window now (xs ++ y ∷ [])) ≡ 0
  unfolding evict
  length-evict_stale now y [] h e = ground arith
  length-evict_stale now y (x ∷ xs) h e = ground (arith, length-evict_stale now y xs h)

  length-evict-times_in :
      (user tool : String) (now : ℕ) (h : List Use)
      → IsOrdered h
      → length (evict window now (times_in user tool h)) ≡ count_in user tool now h
  unfolding times_in count_in
  length-evict-times_in user tool now [] o = unfold evict in refl
  length-evict-times_in user tool now (c ∷ h) (before, o) =
      let ih = length-evict-times_in user tool now h o in
      ground (
        arith,
        ih,
        length-evict_fresh now c.time (times_in user tool h),
        length-evict_stale now c.time (times_in user tool h),
        count_in_expired user tool now c.time h,
      )

  pub count_value :
      (user tool : String) (now : ℕ) (st : Buckets)
      → (count window user tool now st).0 ≡ length (evict window now (times_of user tool st))
  unfolding count evict
  count_value user tool now st = elim (Option-cases (bucket_of user tool st)) [
    | inl fresh ↦ rw (fresh, count) refl
    | inr (times, found) ↦ rw (found, count) refl
  ]

  -- However the counter was used before, with clock readings that do not fall, a count is the
  -- number of recorded invocations of that user and tool that are not older than the window.
  pub count-eq-count_in :
      {h : List Use} {last : ℕ} {st : Buckets} (user tool : String) (now : ℕ)
      → Trace h last st
      → last ≤ now
      → (count window user tool now st).0 ≡ count_in user tool now h
  count-eq-count_in {h} {last} {st} user tool now tr le =
      count_value user tool now st
      ∙ ap length (Trace-agrees tr user tool now le)
      ∙ length-evict-times_in user tool now h (Trace-IsOrdered tr)
