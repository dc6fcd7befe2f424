-- ===== src/Buyer/Periods.antt =====
-- internal/buyer/state.go: the hour and the day that a request falls in.
use knowledge_mesh.Base.{
  Bool-cases, ℕ, ◌-◌, ◌%◌, ◌≡◌, refl, ◌≢◌, inl, inr, arith, if◌then◌else◌, ◌∙◌,
}
use knowledge_mesh.Base.Int.{ℤ, pos, beq_ℤ, beq_ℤ_iff}
use knowledge_mesh.Buyer.Manager.{
  hour_bucket, day_bucket, reset_if_bucket_changed, enter_hour, enter_day,
}
use knowledge_mesh.Types.{UsageCounters}

-- Whole hours and days since 1970, in seconds.
abbrev pub hour_of : ℕ → ℤ
hour_of now = pos (now - now % 3600)

abbrev pub day_of : ℕ → ℤ
day_of now = pos (now - now % 86400)

-- What a counter of a period holds at a time of the period that starts at `start`.
pub data UsedIn (start bucket counter : ℤ) : ℤ → Type 0 where
  same_period : bucket ≡ start → UsedIn start bucket counter counter
  new_period : bucket ≢ start → UsedIn start bucket counter (pos 0)

-- The tokens of the hour and of the day that a request falls in, before it is counted.
pub record UsedAt (usage : UsageCounters) (now : ℕ) (hourly daily : ℤ) : Type 0 where
  pub in_hour : UsedIn (hour_of now) usage.hour_bucket_unix usage.hourly_tokens hourly
  pub in_day : UsedIn (day_of now) usage.day_bucket_unix usage.daily_tokens daily

counter-UsedIn :
    (start bucket counter : ℤ)
    → UsedIn start bucket counter (if beq_ℤ bucket start then counter else pos 0)
counter-UsedIn start bucket counter = elim (Bool-cases (beq_ℤ bucket start)) [
  | inl e ↦ rw e (same_period ((beq_ℤ_iff bucket start).0 e))
  | inr e ↦ rw e (new_period λ h. cc (e, (beq_ℤ_iff bucket start).1 h))
]

enter_hour-daily :
    (hour : ℤ) (usage : UsageCounters)
    → ((enter_hour hour usage).daily_tokens ≡ usage.daily_tokens)
      × ((enter_hour hour usage).day_bucket_unix ≡ usage.day_bucket_unix)
enter_hour-daily hour usage = elim (Bool-cases (beq_ℤ usage.hour_bucket_unix hour)) [
  | inl e ↦ rw e (refl, refl)
  | inr e ↦ rw e (refl, refl)
]

enter_hour-hour :
    (hour : ℤ) (usage : UsageCounters)
    → ((enter_hour hour usage).hourly_tokens
        ≡ (if beq_ℤ usage.hour_bucket_unix hour then usage.hourly_tokens else pos 0))
      × ((enter_hour hour usage).hour_bucket_unix ≡ hour)
enter_hour-hour hour usage = elim (Bool-cases (beq_ℤ usage.hour_bucket_unix hour)) [
  | inl e ↦ rw e (refl, (beq_ℤ_iff usage.hour_bucket_unix hour).0 e)
  | inr e ↦ rw e (refl, refl)
]

enter_day-hour :
    (day : ℤ) (usage : UsageCounters)
    → ((enter_day day usage).hourly_tokens ≡ usage.hourly_tokens)
      × ((enter_day day usage).hour_bucket_unix ≡ usage.hour_bucket_unix)
enter_day-hour day usage = elim (Bool-cases (beq_ℤ usage.day_bucket_unix day)) [
  | inl e ↦ rw e (refl, refl)
  | inr e ↦ rw e (refl, refl)
]

enter_day-day :
    (day : ℤ) (usage : UsageCounters)
    → ((enter_day day usage).daily_tokens
        ≡ (if beq_ℤ usage.day_bucket_unix day then usage.daily_tokens else pos 0))
      × ((enter_day day usage).day_bucket_unix ≡ day)
enter_day-day day usage = elim (Bool-cases (beq_ℤ usage.day_bucket_unix day)) [
  | inl e ↦ rw e (refl, (beq_ℤ_iff usage.day_bucket_unix day).0 e)
  | inr e ↦ rw e (refl, refl)
]

-- The counters of the periods after the reset, and the periods.
pub reset-UsedAt :
    (usage : UsageCounters) (now : ℕ)
    → (let u = reset_if_bucket_changed usage now in UsedAt usage now u.hourly_tokens u.daily_tokens)
unfolding reset_if_bucket_changed hour_bucket day_bucket
reset-UsedAt usage now =
    let u = enter_hour (hour_of now) usage in
    record {
      in_hour =
          rw ((enter_day-hour (day_of now) u).0, (enter_hour-hour (hour_of now) usage).0)
            (counter-UsedIn (hour_of now) usage.hour_bucket_unix usage.hourly_tokens);
      in_day =
          rw
            (
              (enter_day-day (day_of now) u).0,
              (enter_hour-daily (hour_of now) usage).0,
              (enter_hour-daily (hour_of now) usage).1,
            )
            (counter-UsedIn (day_of now) usage.day_bucket_unix usage.daily_tokens);
    }

pub reset-periods :
    (usage : UsageCounters) (now : ℕ)
    → ((reset_if_bucket_changed usage now).hour_bucket_unix ≡ hour_of now)
      × ((reset_if_bucket_changed usage now).day_bucket_unix ≡ day_of now)
unfolding reset_if_bucket_changed hour_bucket day_bucket
reset-periods usage now =
    let u = enter_hour (hour_of now) usage in
    (
      (enter_day-hour (day_of now) u).1 ∙ (enter_hour-hour (hour_of now) usage).1,
      (enter_day-day (day_of now) u).1,
    )

pub reset-total :
    (usage : UsageCounters) (now : ℕ)
    → (reset_if_bucket_changed usage now).total_tokens ≡ usage.total_tokens
unfolding reset_if_bucket_changed
reset-total usage now = ground arith
