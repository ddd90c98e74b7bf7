-- ===== src/Server/Schedules/Next.antt =====
-- The next trigger: for an interval the first whole multiple, and for every kind a later instant.
use darkpyonix_ember.Base.{
  ℕ, zero, suc, ◌+◌, ◌-◌, ◌*◌, ◌/◌, ◌%◌, ◌≤◌, ◌<◌, min, ◌≡◌, refl, sym, ap, ◌∙◌, false, Option,
  none, some, List, ltb, leb, inl, inr, arith, Bool-cases, Option-cases, ltb→lt, leb→le,
}
use darkpyonix_ember.Server.Schedules.{
  TimingError, ScheduleKind, cron, interval, once, Result, ok, err, Calendar, IsCalendar,
  next_after, period, after_interval, skip_repeats, last_instant, i64_max, or_err, parse_tz,
  parse_cron, out_of_range, ◌>>=◌,
}
use native.Mathlib.Omega.{div_any}
use native.Mathlib.Nat.{mod-lt, mul-le-mul_right, mul-le-mul_left}

-- The first multiple of the period, counted from the anchor, past an instant.
pub record FirstMultiple (period anchor after t : ℕ) : Type 0 where
  pub turn : ℕ
  pub positive : 1 ≤ turn
  pub at_turn : t ≡ anchor + turn * period
  pub past : after < t
  pub least : (m : ℕ) → 1 ≤ m → after < anchor + m * period → turn ≤ m

quotient : (d p : ℕ) → 1 ≤ p → (d / p * p ≤ d) × (d < (d / p + 1) * p)
quotient d p h =
    let r : d % p < p = mod-lt d h in let s = div_any d p in (omega (arith, s), omega (arith, s))

not_more : (p d q m : ℕ) → d < (q + 1) * p → q * p ≤ d → d < m * p → q + 1 ≤ m
not_more p d q m h l past = elim (Bool-cases (leb m q)) [
  | inl few ↦ absurd (omega (arith, mul-le-mul_right p (leb→le m q few)))
  | inr many ↦ ground arith
]

ge→ltb : {a b : ℕ} → b ≤ a → ltb a b ≡ false
ge→ltb h = ground arith

module _ (p anchor after : ℕ) (positive : 1 ≤ p) (in_range : anchor + p ≤ last_instant)
    (room : after + p ≤ last_instant) (near : (after - anchor) + p ≤ i64_max) where
  first_turn : after < anchor + p → FirstMultiple p anchor after (anchor + p)
  first_turn h = record {
    turn = 1;
    positive = omega arith;
    at_turn = omega arith;
    past = h;
    least = λ m one past. one;
  }

  later_turn :
      anchor + p ≤ after → FirstMultiple p anchor after (anchor + ((after - anchor) / p + 1) * p)
  later_turn h =
      let d = after - anchor in
      let (low, high) = quotient d p positive in
      record {
        turn = d / p + 1;
        positive = omega arith;
        at_turn = refl;
        past = omega (arith, high);
        least = λ m one past. not_more p d (d / p) m high low (omega (arith, past));
      }

  after_interval-FirstMultiple :
      (t : ℕ) × (after_interval p anchor after ≡ ok (some t)) × FirstMultiple p anchor after t
  unfolding after_interval
  after_interval-FirstMultiple = elim (Bool-cases (ltb after (min (anchor + p) last_instant))) [
    | inl before ↦ (
      anchor + p,
      rw before (ap (λ t. ok (some t)) (omega arith)),
      first_turn (omega (arith, ltb→lt _ _ before)),
    )
    | inr gone ↦ (
      anchor + ((after - anchor) / p + 1) * p,
      rw gone (
          let d = after - anchor in
          let (low, high) = quotient d p positive in
          let fits : ltb i64_max d ≡ false = ground arith in
          let few = mul-le-mul_left (d / p + 1) positive in
          let counts : ltb i64_max (d / p + 1) ≡ false = ge→ltb (omega (arith, low, few)) in
          rw (fits, counts) (ap (λ t. ok (some t)) (omega (arith, low, high)))),
      later_turn (ground arith),
    )
  ]

-- The next multiples of an interval stay within `i64`.
unfoldable pub InRange : ScheduleKind → (anchor after : ℕ) → Type 0
InRange (interval seconds) anchor after =
    (1 ≤ seconds)
    × (anchor + seconds * 1000 ≤ last_instant)
    × (after + seconds * 1000 ≤ last_instant)
    × ((after - anchor) + seconds * 1000 ≤ i64_max)
InRange (cron expr tz) anchor after = Unit {0}
InRange (once at) anchor after = Unit {0}

period_lem :
    (seconds : ℕ) → 1 ≤ seconds → seconds * 1000 ≤ i64_max → period seconds ≡ seconds * 1000
unfolding period
period_lem seconds h fits = ground arith

some_injective : {a b : ℕ} → some a ≡ some b → a ≡ b
some_injective e = cc

ok_injective : {A : Type 0} {a b : A} → ok a ≡ ok b → a ≡ b
ok_injective e = cc

-- What a successful chain went through.
pub through :
    {S T : Type 0} (first : Result S) (next : S → Result T) {t : T}
    → (first >>= next) ≡ ok t
    → (s : S) × (first ≡ ok s) × (next s ≡ ok t)
through (err why) next e = absurd cc
through (ok s) next e = (s, refl, e)

pub or_err-ok :
    {A : Type 0} (e : TimingError) (o : Option A) {a : A} → or_err e o ≡ ok a → o ≡ some a
or_err-ok e none h = absurd cc
or_err-ok e (some a) h = cc

module _ {Z X D L : Type 0} (c : Calendar Z X D L) where
  -- For an interval whose next multiples fit an `i64`, the next trigger is the first whole multiple,
  -- one at least, of its seconds from the anchor that lies past the given instant.
  pub next_after-FirstMultiple :
      (seconds anchor after : ℕ)
      → InRange (interval seconds) anchor after
      → (t : ℕ) × (next_after c (interval seconds) anchor after ≡ ok (some t))
        × FirstMultiple (seconds * 1000) anchor after t
  unfolding next_after InRange
  next_after-FirstMultiple seconds anchor after (some', in_range, room, near) =
      let p = seconds * 1000 in
      let (t, found, first) =
        after_interval-FirstMultiple p anchor after (omega arith) in_range room near in
      (
        t,
        ap (λ q. after_interval q anchor after) (period_lem seconds some' (omega arith)) ∙ found,
        first,
      )

  skip_repeats-later :
      (laws : IsCalendar c) (rounds : ℕ) (x : X) (l : L) (from : D) (t : ℕ)
      → skip_repeats c rounds x l from ≡ some t
      → c.millis from < t
  unfolding skip_repeats
  skip_repeats-later laws zero x l from t h = absurd cc
  skip_repeats-later laws (suc rounds) x l from t h = elim (Option-cases (c.find_next x from)) [
    | inl never ↦ absurd (cc (rw (never, skip_repeats) at h))
    | inr (next, found) ↦
        let step = laws.later x from next found in
        let again = skip_repeats-later laws rounds x l next t in
        elim (Bool-cases (c.same_local (c.naive_local next) l)) [
          | inl same ↦ omega (arith, step, again (rw (found, skip_repeats, same) at h))
          | inr other ↦ omega (arith, step, some_injective (rw (found, skip_repeats, other) at h))
        ]
  ]

  cron-later :
      (laws : IsCalendar c) (expr zone : List ℕ) (anchor after t : ℕ)
      → next_after c (cron expr zone) anchor after ≡ ok (some t)
      → after < t
  unfolding next_after
  cron-later laws expr zone anchor after t h =
      let (tz, zoned, h1) = through (parse_tz c zone) _ h in
      let (x, parsed, h2) = through (parse_cron c expr) _ h1 in
      let (utc, given, h3) = through (or_err (out_of_range after) (c.from_millis after)) _ h2 in
      let found =
        skip_repeats-later laws 4 x (c.naive_local (c.with_zone tz utc)) (c.with_zone tz utc) t
          (ok_injective h3) in
      omega (
        arith,
        found,
        laws.zone_keeps tz utc,
        laws.same_millis after utc (or_err-ok _ (c.from_millis after) given),
      )

  -- With a calendar as documented, the next trigger of every kind, for an interval one whose next
  -- multiples fit an `i64`, lies past the given instant.
  pub next_after-later :
      (laws : IsCalendar c) (kind : ScheduleKind) (anchor after t : ℕ)
      → InRange kind anchor after
      → next_after c kind anchor after ≡ ok (some t)
      → after < t
  unfolding next_after InRange
  next_after-later laws (once at) anchor after t fits h = ground arith
  next_after-later laws (interval seconds) anchor after t fits h =
      let (u, found, first) = next_after-FirstMultiple seconds anchor after fits in
      omega (arith, first.past, some_injective (ok_injective (sym found ∙ h)))
  next_after-later laws (cron expr zone) anchor after t fits h =
      cron-later laws expr zone anchor after t h
