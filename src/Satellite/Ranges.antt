-- ===== src/Satellite/Ranges.antt =====
-- The ranges of the satellite's values, which an update of the environment keeps.
use orbit_rtos.Base.{
  ℕ, ◌<◌, ◌≡◌, refl, ◌∙◌, sym, ap, ◌⊎◌, ◌&&◌, inl, inr, true, false, Bool-cases, arith,
}
use orbit_rtos.Floats.{FloatOps, FloatLaws}
use orbit_rtos.Kernel.{Satellite}
use orbit_rtos.Satellite.Environment.{
  move_on, in_sunlight, drain_rate, charge, drain, update_battery, target_temp, approach,
  update_temperature, drift, is_extreme,
}

-- The values are in the ranges of their comments, and the temperature between 9.5 and 30.5.
pub record IsMild (f : FloatOps) (v : Satellite) : Type 0 where
  pub on_orbit : v.orbit_position < 360
  pub not_empty : f.less v.battery_level (f.literal 0) ≡ false
  pub not_overfull : f.less (f.literal 1000) v.battery_level ≡ false
  pub not_cold : f.less v.temperature (f.literal 9500) ≡ false
  pub not_hot : f.less (f.literal 30500) v.temperature ≡ false

module _ {f : FloatOps} (laws : FloatLaws f) where
  -- What is not below the higher bound is not below the lower one.
  not_below :
      (x low high : ℕ) → f.less low high ≡ true → f.less x high ≡ false → f.less x low ≡ false
  not_below x low high l h = elim (Bool-cases (f.less x low)) [
    | inl below ↦ let t = laws.less-trans x low high below l in cc
    | inr fine ↦ fine
  ]

  not_above :
      (x low high : ℕ) → f.less low high ≡ true → f.less low x ≡ false → f.less high x ≡ false
  not_above x low high l h = elim (Bool-cases (f.less high x)) [
    | inl above ↦ let t = laws.less-trans low high x l above in cc
    | inr fine ↦ fine
  ]

  charge-range :
      (level : ℕ)
      → f.less level (f.literal 0) ≡ false
      → (f.less (charge f level) (f.literal 0) ≡ false)
        × (f.less (f.literal 1000) (charge f level) ≡ false)
  unfolding charge
  charge-range level low =
      let more = f.plus level (f.literal 10) in
      let up = laws.plus-up level (f.literal 10) (f.literal 0) (laws.literal-positive 10) low in
      elim (Bool-cases (f.less (f.literal 1000) more)) [
        | inl over ↦ rw over (laws.literal-positive 1000, laws.less-irrefl (f.literal 1000))
        | inr fine ↦ rw fine (up, fine)
      ]

  drain-range :
      (rate level : ℕ)
      → f.less rate (f.literal 0) ≡ false
      → f.less (f.literal 1000) level ≡ false
      → (f.less (drain f rate level) (f.literal 0) ≡ false)
        × (f.less (f.literal 1000) (drain f rate level) ≡ false)
  unfolding drain
  drain-range rate level positive high =
      let rest = f.minus level rate in
      let down = laws.minus-down level rate (f.literal 1000) positive high in
      elim (Bool-cases (f.less rest (f.literal 0))) [
        | inl below ↦ rw below (laws.less-irrefl (f.literal 0), laws.literal-positive 1000)
        | inr fine ↦ rw fine (fine, down)
      ]

  drain_rate-positive : (v : Satellite) → f.less (drain_rate f v) (f.literal 0) ≡ false
  unfolding drain_rate
  drain_rate-positive v = elim (Bool-cases v.payload_active) [
    | inl on ↦ rw on (
        laws.times-positive (f.literal 5) (f.from_u32 2) (laws.literal-positive 5)
          (laws.from_u32-positive 2))
    | inr off ↦ rw off (laws.literal-positive 5)
  ]

  at_most :
      (x bound high : ℕ)
      → (bound ≡ high) ⊎ (f.less bound high ≡ true)
      → f.less bound x ≡ false
      → f.less high x ≡ false
  at_most x bound high (inl e) h = ap (λ b. f.less b x) (sym e) ∙ h
  at_most x bound high (inr l) h = not_above x bound high l h

  at_least :
      (x bound low : ℕ)
      → (bound ≡ low) ⊎ (f.less low bound ≡ true)
      → f.less x bound ≡ false
      → f.less x low ≡ false
  at_least x bound low (inl e) h = ap (f.less x) (sym e) ∙ h
  at_least x bound low (inr l) h = not_below x low bound l h

  -- The target is half a degree inside the bounds.
  approach-range :
      (low high target t : ℕ)
      → (f.plus target (f.literal 500) ≡ high)
        ⊎ (f.less (f.plus target (f.literal 500)) high ≡ true)
      → (f.minus target (f.literal 500) ≡ low)
        ⊎ (f.less low (f.minus target (f.literal 500)) ≡ true)
      → f.less t low ≡ false
      → f.less high t ≡ false
      → (f.less (approach f target t) low ≡ false) × (f.less high (approach f target t) ≡ false)
  unfolding approach
  approach-range low high target t above below not_low not_high =
      let half = f.literal 500 in
      elim (Bool-cases (f.less t target)) [
        | inl up ↦ rw up (
          laws.plus-up t half low (laws.literal-positive 500) not_low,
          at_most (f.plus t half) (f.plus target half) high above (laws.plus-less t target half up),
        )
        | inr not_up ↦ elim (Bool-cases (f.less target t)) [
          | inl down ↦
              rw (not_up, down)
                (
                  at_least (f.minus t half) (f.minus target half) low below
                      (laws.minus-less target t half down),
                  laws.minus-down t half high (laws.literal-positive 500) not_high,
                )
          | inr there ↦ rw (not_up, there) (not_low, not_high)
        ]
      ]

  -- With the payload off the target is 30 or 10 degrees.
  temperature-range :
      (v : Satellite)
      → v.payload_active ≡ false
      → f.less v.temperature (f.literal 9500) ≡ false
      → f.less (f.literal 30500) v.temperature ≡ false
      → let v' = update_temperature f v in
        (f.less v'.temperature (f.literal 9500) ≡ false)
        × (f.less (f.literal 30500) v'.temperature ≡ false)
  unfolding update_temperature target_temp
  temperature-range v off low high = elim (Bool-cases (in_sunlight v)) [
    | inl day ↦
        rw (day, off)
          (approach-range (f.literal 9500) (f.literal 30500) (f.literal 30000) v.temperature
            (inl (laws.half_plus 60 1 (omega arith) (omega arith)))
            (inr (
              ap (f.less (f.literal 9500)) (laws.half_minus 60 1 (omega arith) (omega arith))
              ∙ laws.half_less 19 59 (omega arith) (omega arith)))
            low high)
    | inr night ↦
        rw (night, off)
          (approach-range (f.literal 9500) (f.literal 30500) (f.literal 10000) v.temperature
            (inr (
              ap (λ x. f.less x (f.literal 30500)) (laws.half_plus 20 1 (omega arith) (omega arith))
              ∙ laws.half_less 21 61 (omega arith) (omega arith)))
            (inl (laws.half_minus 20 1 (omega arith) (omega arith))) low high)
  ]

  battery-range :
      (v : Satellite)
      → f.less v.battery_level (f.literal 0) ≡ false
      → f.less (f.literal 1000) v.battery_level ≡ false
      → let v' = update_battery f v in
        (f.less v'.battery_level (f.literal 0) ≡ false)
        × (f.less (f.literal 1000) v'.battery_level ≡ false)
  unfolding update_battery
  battery-range v low high = elim (Bool-cases (in_sunlight v && v.solar_panels_deployed)) [
    | inl sun ↦ rw sun (charge-range v.battery_level low)
    | inr dark ↦ rw dark (drain-range (drain_rate f v) v.battery_level (drain_rate-positive v) high)
  ]

  -- Without the payload, the values stay in their ranges.
  pub drift-IsMild : (v : Satellite) → v.payload_active ≡ false → IsMild f v → IsMild f (drift f v)
  unfolding drift move_on
  drift-IsMild v off m =
      let moved = move_on v in
      let charged = update_battery f moved in
      let battery = battery-range moved m.not_empty m.not_overfull in
      let heat = temperature-range charged off m.not_cold m.not_hot in
      record {
        on_orbit = omega arith;
        not_empty = battery.0;
        not_overfull = battery.1;
        not_cold = heat.0;
        not_hot = heat.1;
      }

  pub mild-not_extreme : (v : Satellite) → IsMild f v → is_extreme f v ≡ false
  mild-not_extreme v m =
      let cool =
        not_above v.temperature (f.literal 30500) (f.literal 40000)
          (laws.half_less 61 80 (omega arith) (omega arith)) m.not_hot in
      let warm =
        not_below v.temperature (f.literal 0) (f.literal 9500)
          (laws.half_less 0 19 (omega arith) (omega arith)) m.not_cold in
      rw (cool, warm) refl
