-- ===== src/Probe/Result.antt =====
-- inc/probes.hpp: ProbeError, its text, and ProbeResult.
use edge_healthd.Prelude.{Str}
use edge_healthd.Prelude.Int.{ℤ}

pub record ProbeError : Type 0 where
  pub probe : Str
  pub message : Str
  pub code : ℤ

-- `std::expected<T, ProbeError>`.
pub data ProbeResult (T : Type 0) : Type 0 where
  value : T → ProbeResult T
  failure : ProbeError → ProbeResult T

-- `make_error`.
unfoldable pub make_error : Str → Str → ℤ → ProbeError
make_error probe message code = record { probe = probe; message = message; code = code }
