-- ===== src/Probe/Device/Named.antt =====
-- The device always has a name.
use edge_healthd.Prelude.{
  ℕ, ◌≡◌, refl, true, Option, none, some, [], ◌∷◌, Str, str, leb, length, arith,
}
use edge_healthd.Types.Sections.{DeviceInfo}
use edge_healthd.Config.{Config}
use edge_healthd.Probe.Result.{value}
use edge_healthd.Probe.Device.{
  DeviceFiles, Uname, stripped, trimmed, or_unknown, from_machine_id, or_machine_id,
  read_machine_id, configured_or, with_uname, collect,
}

abbrev pub IsNamed : Str → Type 0
IsNamed s = leb 1 (length s) ≡ true

cons-IsNamed : (c : ℕ) (cs : Str) → IsNamed (c ∷ cs)
cons-IsNamed c cs = ground arith

or_unknown-IsNamed : (s : Str) → IsNamed (or_unknown s)
unfolding str
or_unknown-IsNamed [] = refl
or_unknown-IsNamed (c ∷ cs) = cons-IsNamed c cs

from_machine_id-IsNamed : (o : Option Str) → IsNamed (from_machine_id o)
unfolding str
from_machine_id-IsNamed none = refl
from_machine_id-IsNamed (some line) = or_unknown-IsNamed (trimmed line)

or_machine_id-IsNamed : (s : Str) (o : Option Str) → IsNamed (or_machine_id s o)
or_machine_id-IsNamed [] o = from_machine_id-IsNamed o
or_machine_id-IsNamed (c ∷ cs) o = cons-IsNamed c cs

read_machine_id-IsNamed : (files : DeviceFiles) → IsNamed (read_machine_id files)
unfolding read_machine_id
read_machine_id-IsNamed files =
    elim (files.serial_number)
      as (λ o. IsNamed (elim o [
        | none ↦ from_machine_id files.machine_id
        | some line ↦ or_machine_id (stripped line) files.machine_id
      ])) [
        | none ↦ from_machine_id-IsNamed files.machine_id
        | some line ↦ or_machine_id-IsNamed (stripped line) files.machine_id
      ]

configured_or-IsNamed : (s t : Str) → IsNamed t → IsNamed (configured_or s t)
configured_or-IsNamed [] t h = h
configured_or-IsNamed (c ∷ cs) t h = cons-IsNamed c cs

with_uname-IsNamed :
    (u : Option Uname) (info : DeviceInfo)
    → IsNamed info.device_id
    → IsNamed (with_uname u info).device_id
with_uname-IsNamed none info h = h
with_uname-IsNamed (some u) info h = h

-- Whatever the configuration and the files say, the device that the probe answers with has a name
-- that is not empty, as the schema asks.
pub collect-IsNamed :
    {F : Type 0} (cfg : Config F) (files : DeviceFiles)
    → (info : DeviceInfo) × (collect cfg files ≡ value info) × IsNamed info.device_id
unfolding collect
collect-IsNamed cfg files = (
  _,
  refl,
  with_uname-IsNamed files.uname _
      (configured_or-IsNamed cfg.device_id (read_machine_id files) (read_machine_id-IsNamed files)),
)
