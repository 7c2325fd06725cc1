-- ===== src/Policy/Usage.antt =====
-- clawmes/policy/usage_counter.py: the sliding-window counter. `time.monotonic()` is an argument,
-- in ticks from the clock's start; the deques of `_buckets` are lists, oldest first.
pub mod Evict
pub mod Window
use clawmes.Base.{
  ℕ, ◌+◌, String, Bool, ◌&&◌, Option, none, some, List, [], ◌∷◌, ◌++◌, ltb, if◌then◌else◌, length,
  str_eq,
}

abbrev pub Buckets : Type 0
Buckets = List (String × String × List ℕ)

abbrev pub window_seconds : ℕ
window_seconds = 3600

-- The key `(user_id, tool_name)`.
abbrev pub same_key : String → String → String → String → Bool
same_key u t user tool = str_eq u user && str_eq t tool

abbrev pub bucket_of : String → String → Buckets → Option (List ℕ)
bucket_of user tool [] = none
bucket_of user tool ((u, t, times) ∷ rest) =
    if same_key u t user tool then some times else bucket_of user tool rest

abbrev pub put_bucket : String → String → List ℕ → Buckets → Buckets
put_bucket user tool times [] = (user, tool, times) ∷ []
put_bucket user tool times ((u, t, old) ∷ rest) =
    if same_key u t user tool
    then (u, t, times) ∷ rest
    else (u, t, old) ∷ put_bucket user tool times rest

-- `while bucket and bucket[0] < now - window: bucket.popleft()`
unfoldable pub evict : ℕ → ℕ → List ℕ → List ℕ
evict window now [] = []
evict window now (t ∷ times) = if ltb (t + window) now then evict window now times else t ∷ times

abbrev pub or_empty : Option (List ℕ) → List ℕ
or_empty none = []
or_empty (some times) = times

-- `self._buckets[key]` of a defaultdict
abbrev pub times_of : String → String → Buckets → List ℕ
times_of user tool st = or_empty (bucket_of user tool st)

unfoldable pub record_use : ℕ → String → String → ℕ → Buckets → Buckets
record_use window user tool now st =
    put_bucket user tool (evict window now (times_of user tool st) ++ now ∷ []) st

unfoldable pub count : ℕ → String → String → ℕ → Buckets → ℕ × Buckets
count window user tool now st = elim (bucket_of user tool st) [
  | none ↦ (0, st)
  | some times ↦ let kept = evict window now times in (length kept, put_bucket user tool kept st)
]
