-- ===== src/Satellite/Commands.antt =====
-- What the command handler does to the satellite.
use orbit_rtos.Base.{
  ℕ, ◌≤◌, ◌≡◌, refl, inl, inr, true, false, leb, if◌then◌else◌, some, Bool-cases, arith,
}
use orbit_rtos.Kernel.{Sys, Env, Satellite}
use orbit_rtos.Satellite.{
  mode_safe, mode_maintenance, CommandType, noop, reset, set_mode, take_picture, deploy_solar_panel,
  adjust_orbit, unknown, Shared, set_satellite, process_command,
}

-- A mode that exists, and the payload off.
pub record IsSafe (v : Satellite) : Type 0 where
  pub known_mode : v.mode ≤ mode_maintenance
  pub payload_off : v.payload_active ≡ false

-- What a command makes of the satellite whose payload is off.
unfoldable pub obey : CommandType → ℕ → Satellite → Satellite
obey noop parameter v = v
obey reset parameter v = record v { mode = mode_safe; payload_active = false }
obey set_mode parameter v =
    if leb parameter mode_maintenance then record v { mode = parameter } else v
obey take_picture parameter v = v
obey deploy_solar_panel parameter v = record v { solar_panels_deployed = true }
obey adjust_orbit parameter v = v
obey (unknown n) parameter v = v

obey-IsSafe :
    (c : CommandType) (parameter : ℕ) (v : Satellite) → IsSafe v → IsSafe (obey c parameter v)
unfolding obey
obey-IsSafe noop parameter v safe = safe
obey-IsSafe reset parameter v safe = record { known_mode = omega arith; payload_off = refl }
obey-IsSafe set_mode parameter v safe = record {
  known_mode = ground (arith, safe.known_mode);
  payload_off = ground (arith, safe.payload_off);
}
obey-IsSafe take_picture parameter v safe = safe
obey-IsSafe deploy_solar_panel parameter v safe = record {
  known_mode = safe.known_mode;
  payload_off = safe.payload_off;
}
obey-IsSafe adjust_orbit parameter v safe = safe
obey-IsSafe (unknown n) parameter v safe = safe

pub process-obey :
    (e : Env) (fuel : ℕ) (h : Shared) (c : CommandType) (parameter : ℕ) (s : Sys)
    → s.satellite.payload_active ≡ false
    → process_command e fuel h c parameter s ≡ some (set_satellite s (obey c parameter s.satellite))
unfolding process_command obey
process-obey e fuel h noop parameter s off = refl
process-obey e fuel h reset parameter s off = refl
process-obey e fuel h set_mode parameter s off = ground arith
process-obey e fuel h take_picture parameter s off = rw off refl
process-obey e fuel h deploy_solar_panel parameter s off =
    elim (Bool-cases s.satellite.solar_panels_deployed) [
      | inl out ↦ rw out refl
      | inr stowed ↦ rw stowed refl
    ]
process-obey e fuel h adjust_orbit parameter s off = refl
process-obey e fuel h (unknown n) parameter s off = refl

-- The switch on the type of a command, with any type and parameter, and any rounds for the loops,
-- ends: if the mode is one of the five and the payload is off, that is still so, and nothing but
-- the satellite has changed, so that no picture is taken.
pub process_command-IsSafe :
    (e : Env) (fuel : ℕ) (h : Shared) (c : CommandType) (parameter : ℕ) (s : Sys)
    → IsSafe s.satellite
    → (v : Satellite) × (process_command e fuel h c parameter s ≡ some (set_satellite s v))
      × IsSafe v
process_command-IsSafe e fuel h c parameter s safe = (
  obey c parameter s.satellite,
  process-obey e fuel h c parameter s safe.payload_off,
  obey-IsSafe c parameter s.satellite safe,
)
