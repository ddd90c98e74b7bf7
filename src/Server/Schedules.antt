-- ===== src/Server/Schedules.antt =====
-- ember/server/src/schedules/timing.rs and the scheduling of schedules/mod.rs: when a schedule fires
-- next, which triggers have passed, and what becomes of them. An instant, an `i64` of Unix
-- milliseconds, is kept as the natural number that is 2 ^ 63 larger, so orders and differences are
-- the same. A text is the list of its scalar values. Where the source would overflow, which panics
-- or wraps by the build, the result is the error `overflow`. The crates for cron expressions and
-- time zones are the parameter `Calendar`.
pub mod Next
pub mod Walk
pub mod Plans
pub mod Rows
pub mod Rests
mod Tests
use darkpyonix_ember.Base.{
  ℕ, zero, suc, ◌+◌, ◌-◌, ◌*◌, ◌/◌, ◌^◌, min, max, ◌≡◌, ◌<◌, Bool, true, false, not, ◌&&◌, ◌||◌,
  Option, none, some, List, [], ◌∷◌, ◌++◌, length, drop, ltb, leb, ◌==◌, if◌then◌else◌, ◌⊎◌, inl,
  inr,
}
use Prim.Native.String.{String}

abbrev pub min_interval_secs : ℕ
min_interval_secs = 60

abbrev pub max_walk : ℕ
max_walk = 200_000

-- `i64::MAX` as an instant.
abbrev pub last_instant : ℕ
last_instant = 18_446_744_073_709_551_615

abbrev pub i64_max : ℕ
i64_max = 9_223_372_036_854_775_807

pub data ScheduleKind : Type 0 where
  cron : (expr tz : List ℕ) → ScheduleKind
  interval : (seconds : ℕ) → ScheduleKind
  once : (at : ℕ) → ScheduleKind

-- The errors, each a text of the source.
pub data TimingError : Type 0 where
  unknown_zone : (tz : List ℕ) → TimingError
  five_fields : (expr : List ℕ) → TimingError
  invalid_cron : (expr : List ℕ) → (reason : String) → TimingError
  too_short : TimingError
  out_of_range : (instant : ℕ) → TimingError
  in_the_past : (instant : ℕ) → TimingError
  never_fires : TimingError
  empty_prompt : TimingError
  no_trigger overflow out_of_fuel : TimingError

-- `Result<T, String>`.
pub data Result {ℓ} (T : Type ℓ) : Type ℓ where
  err : (why : TimingError) → Result T
  ok : (value : T) → Result T

-- The `?` of the source.
infixl 5 ◌>>=◌
abbrev pub ◌>>=◌ {ℓ κ} : {S : Type ℓ} {T : Type κ} → Result S → (S → Result T) → Result T
err why >>= next = err why
ok value >>= next = next value

abbrev pub or_err {ℓ} : {A : Type ℓ} → TimingError → Option A → Result A
or_err e none = err e
or_err e (some a) = ok a

-- `chrono`, `chrono-tz` and `croner`: time zones `Z`, expressions `X`, instants in a zone `D` and
-- local times `L`. `find_next` is `find_next_occurrence` past the instant, not at it.
pub record Calendar (Z X D L : Type 0) : Type 0 where
  pub parse_zone : List ℕ → Option Z
  pub parse_expression : List ℕ → String ⊎ X
  pub from_millis : ℕ → Option D
  pub with_zone : Z → D → D
  pub naive_local : D → L
  pub same_local : L → L → Bool
  pub find_next : X → D → Option D
  pub millis : D → ℕ

-- The documented behaviour that the scheduling relies on: a match is later than the instant that
-- it is looked for from, and zones do not move instants.
pub record IsCalendar {Z X D L : Type 0} (c : Calendar Z X D L) : Type 0 where
  pub later : (x : X) (d next : D) → c.find_next x d ≡ some next → c.millis d < c.millis next
  pub zone_keeps : (z : Z) (d : D) → c.millis (c.with_zone z d) ≡ c.millis d
  pub same_millis : (t : ℕ) (d : D) → c.from_millis t ≡ some d → c.millis d ≡ t

-- `char::is_whitespace`.
unfoldable pub is_whitespace : ℕ → Bool
is_whitespace c =
    (leb 9 c && leb c 13)
    || c == 32
    || c == 133
    || c == 160
    || c == 5_760
    || (leb 8_192 c && leb c 8_202)
    || c == 8_232
    || c == 8_233
    || c == 8_239
    || c == 8_287
    || c == 12_288

unfoldable pub trim_start : List ℕ → List ℕ
unfolding is_whitespace
trim_start [] = []
trim_start (c ∷ cs) = let rest = trim_start cs in if is_whitespace c then rest else c ∷ cs

abbrev pub unless_blank : ℕ → List ℕ → List ℕ
unless_blank c [] = if is_whitespace c then [] else c ∷ []
unless_blank c (d ∷ ds) = c ∷ d ∷ ds

unfoldable pub trim_end : List ℕ → List ℕ
unfolding is_whitespace
trim_end [] = []
trim_end (c ∷ cs) = unless_blank c (trim_end cs)

unfoldable pub trim : List ℕ → List ℕ
unfolding trim_start trim_end
trim text = trim_end (trim_start text)

-- `split_whitespace().count()`; the flag says that a word is open.
unfoldable pub count_words : Bool → List ℕ → ℕ
unfolding is_whitespace
count_words in_word [] = 0
count_words in_word (c ∷ cs) =
    let after_blank = count_words false cs in
    let in_the_word = count_words true cs in
    if is_whitespace c then after_blank else if in_word then in_the_word else suc in_the_word

-- `expr.starts_with('@')`.
abbrev pub starts_with_at : List ℕ → Bool
starts_with_at [] = false
starts_with_at (c ∷ cs) = c == 64

module _ {Z X D L : Type 0} (c : Calendar Z X D L) where
  unfoldable pub parse_tz : List ℕ → Result Z
  parse_tz tz = or_err (unknown_zone tz) (c.parse_zone tz)

  abbrev pub croned : List ℕ → String ⊎ X → Result X
  croned expr (inl reason) = err (invalid_cron expr reason)
  croned expr (inr x) = ok x

  unfoldable pub parse_cron : List ℕ → Result X
  unfolding trim count_words
  parse_cron untrimmed =
      let expr = trim untrimmed in
      if not (starts_with_at expr) && not (count_words false expr == 5)
      then err (five_fields expr)
      else croned expr (c.parse_expression expr)

  unfoldable pub validate : ScheduleKind → Result (Unit {0})
  unfolding parse_tz parse_cron
  validate (cron expr tz) = do z ← parse_tz tz; x ← parse_cron expr; ok tt
  validate (interval seconds) = if ltb seconds min_interval_secs then err too_short else ok tt
  validate (once at) = ok tt

-- `(seconds as i64).saturating_mul(1000).max(1)`: a count from 2 ^ 63 is negative as an `i64`.
unfoldable pub period : ℕ → ℕ
period seconds = if ltb i64_max seconds then 1 else max (min (seconds * 1000) i64_max) 1

-- `saturating_add` of a duration that is not negative.
abbrev pub saturating_add : ℕ → ℕ → ℕ
saturating_add instant duration = min (instant + duration) last_instant

unfoldable pub after_interval : (period anchor after : ℕ) → Result (Option ℕ)
after_interval period anchor after =
    let first = saturating_add anchor period in
    let k = (after - anchor) / period + 1 in
    if ltb after first
    then ok (some first)
    else if ltb i64_max (after - anchor) || ltb i64_max k
    then err overflow
    else ok (some (saturating_add anchor (min (k * period) i64_max)))

module _ {Z X D L : Type 0} (c : Calendar Z X D L) where
  -- The loop that passes over a repeated local time, on the rounds left.
  unfoldable pub skip_repeats : (rounds : ℕ) → X → L → D → Option ℕ
  skip_repeats zero x previous_local from = none
  skip_repeats (suc rounds) x previous_local from = elim (c.find_next x from) [
    | none ↦ none
    | some next ↦
        let rest = skip_repeats rounds x previous_local next in
        if c.same_local (c.naive_local next) previous_local then rest else some (c.millis next)
  ]

  -- `next_after`: the first trigger past `after`, where intervals count from `anchor`.
  unfoldable pub next_after : ScheduleKind → (anchor after : ℕ) → Result (Option ℕ)
  unfolding period after_interval parse_tz parse_cron skip_repeats
  next_after (once at) anchor after = ok (if ltb after at then some at else none)
  next_after (interval seconds) anchor after = after_interval (period seconds) anchor after
  next_after (cron expr zone) anchor after = do
    tz ← parse_tz c zone
    x ← parse_cron c expr
    utc ← or_err (out_of_range after) (c.from_millis after)
    let from = c.with_zone tz utc
    ok (skip_repeats 4 x (c.naive_local from) from)

pub record Due : Type 0 where
  pub count : ℕ
  pub first : ℕ
  pub latest : ℕ
  pub recent : List ℕ

-- `push`, and `remove(0)` past the limit.
unfoldable pub push_recent : (keep : ℕ) → List ℕ → ℕ → List ℕ
push_recent keep recent n =
    let longer = recent ++ n ∷ [] in
    if ltb (max keep 1) (length longer) then drop 1 longer else longer

unfoldable pub add_due : (keep : ℕ) → Due → ℕ → Due
unfolding push_recent
add_due keep due n = record {
  count = due.count + 1;
  first = due.first;
  latest = n;
  recent = push_recent keep due.recent n;
}

module _ {Z X D L : Type 0} (c : Calendar Z X D L) (kind : ScheduleKind) (anchor : ℕ)
    (until keep : ℕ) where
  -- The loop of `occurrences_between`, on fuel.
  unfoldable pub walk : (fuel : ℕ) → Due → (t : ℕ) → Result Due
  unfolding next_after add_due
  walk zero due t = err out_of_fuel
  walk (suc fuel) due t =
      let on : ℕ → Result Due = λ n. walk fuel (add_due keep due n) n in
      let round : Result Due = next_after c kind anchor t >>= λ next. elim next [
        | none ↦ ok due
        | some n ↦ let goes_on = on n in if leb n until then goes_on else ok due
      ] in
      if ltb due.count max_walk then round else ok due

  unfoldable pub occurrences_between : (first : ℕ) → Result Due
  unfolding walk
  occurrences_between first =
      walk max_walk (record { count = 1; first = first; latest = first; recent = first ∷ [] }) first
