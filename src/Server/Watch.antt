-- ===== src/Server/Watch.antt =====
-- Watch of conf/watch.go: which changes of the configuration file are loaded. Times are nanoseconds
-- of a clock; the goroutines that wait are given by the times at which they load.
use v2node_pro.Prelude.{
  ℕ, ◌+◌, ◌*◌, ◌≤◌, ◌<◌, String, Bool, false, ◌≡◌, Option, none, some, List, [], ◌∷◌, map,
  if◌then◌else◌, ltb, leb, arith, Bool-cases, inl, inr,
}

abbrev seconds : ℕ → ℕ
seconds n = n * 1000000000

-- an event of fsnotify: whether it is a Chmod, when it comes, and what the file holds then
pub record FileEvent : Type 0 where
  pub is_chmod : Bool
  pub time : ℕ
  pub content : String

-- `pre.Add(10 * time.Second).After(time.Now())`; the first `pre` is the year 1
unfoldable pub is_too_soon : Option ℕ → ℕ → Bool
is_too_soon none now = false
is_too_soon (some pre) now = ltb now (pre + seconds 10)

-- The times of the events that start a goroutine.
unfoldable pub accepted : Option ℕ → List FileEvent → List ℕ
unfolding is_too_soon
accepted pre [] = []
accepted pre (e ∷ es) =
    let later = accepted (some e.time) es in
    let same = accepted pre es in
    if e.is_chmod then same else if is_too_soon pre e.time then same else e.time ∷ later

-- What the file holds at a time, behind the last event up to then.
unfoldable pub content_at : ℕ → String → List FileEvent → String
content_at now held [] = held
content_at now held (e ∷ es) = content_at now (if leb e.time now then e.content else held) es

-- the times at which the goroutines load the file
unfoldable pub load_times : List FileEvent → List ℕ
unfolding accepted
load_times es = map (λ t. t + seconds 5) (accepted none es)

-- What they load.
unfoldable pub loads : String → List FileEvent → List String
unfolding load_times content_at
loads held es = map (λ t. content_at t held es) (load_times es)

-- No two neighbours are closer than this.
abbrev pub IsSpaced : ℕ → List ℕ → Type 0
IsSpaced gap [] = Unit
IsSpaced gap (t ∷ []) = Unit
IsSpaced gap (t ∷ u ∷ ts) = (t + gap ≤ u) × IsSpaced gap (u ∷ ts)

-- All accepted events come at least ten seconds behind the last one.
StartsLate : ℕ → List ℕ → Type 0
StartsLate bound [] = Unit
StartsLate bound (t ∷ ts) = bound ≤ t

cons-IsSpaced :
    (gap t : ℕ) (ts : List ℕ) → StartsLate (t + gap) ts → IsSpaced gap ts → IsSpaced gap (t ∷ ts)
unfolding StartsLate
cons-IsSpaced gap t [] late s = tt
cons-IsSpaced gap t (u ∷ ts) late s = (late, s)

accepted-IsSpaced :
    (pre : ℕ) (es : List FileEvent)
    → IsSpaced (seconds 10) (accepted (some pre) es)
      × StartsLate (pre + seconds 10) (accepted (some pre) es)
unfolding accepted StartsLate is_too_soon
accepted-IsSpaced pre [] = (tt, tt)
accepted-IsSpaced pre (e ∷ es) =
    let same = accepted-IsSpaced pre es in
    let (spaced, late) = accepted-IsSpaced e.time es in
    elim (Bool-cases e.is_chmod) [
      | inl chmod ↦ rw chmod same
      | inr change ↦ elim (Bool-cases (is_too_soon (some pre) e.time)) [
        | inl soon ↦ rw (change, soon) same
        | inr fine ↦
            rw (change, fine)
              (
                cons-IsSpaced (seconds 10) e.time (accepted (some e.time) es) late spaced,
                ground arith,
              )
      ]
    ]

shift_IsSpaced : (gap k : ℕ) (ts : List ℕ) → IsSpaced gap ts → IsSpaced gap (map (λ t. t + k) ts)
shift_IsSpaced gap k [] s = tt
shift_IsSpaced gap k (t ∷ []) s = tt
shift_IsSpaced gap k (t ∷ u ∷ ts) s = (omega arith, shift_IsSpaced gap k (u ∷ ts) s.1)

first-IsSpaced : (es : List FileEvent) → IsSpaced (seconds 10) (accepted none es)
unfolding accepted StartsLate is_too_soon
first-IsSpaced [] = tt
first-IsSpaced (e ∷ es) =
    let (spaced, late) = accepted-IsSpaced e.time es in
    elim (Bool-cases e.is_chmod) [
      | inl chmod ↦ rw chmod (first-IsSpaced es)
      | inr change ↦
          rw change (cons-IsSpaced (seconds 10) e.time (accepted (some e.time) es) late spaced)
    ]

-- However often the configuration file changes, and even if the clock is set back, the program
-- loads it at times that are at least ten seconds apart.
pub load_times-IsSpaced : (es : List FileEvent) → IsSpaced (seconds 10) (load_times es)
unfolding load_times
load_times-IsSpaced es =
    shift_IsSpaced (seconds 10) (seconds 5) (accepted none es) (first-IsSpaced es)

-- A change more than five and less than ten seconds after a first one is never loaded: the program
-- keeps what the first one wrote, until the file changes again.
pub loads-misses :
    (held : String) (first second : FileEvent)
    → first.is_chmod ≡ false
    → second.is_chmod ≡ false
    → first.time + seconds 5 < second.time
    → second.time < first.time + seconds 10
    → loads held (first ∷ second ∷ []) ≡ first.content ∷ []
unfolding loads load_times accepted is_too_soon content_at
loads-misses held first second f s after before = rw (f, s) (ground arith)
