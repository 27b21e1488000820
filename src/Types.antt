-- ===== src/Types.antt =====
-- inc/types.hpp: the data model. `Enums` has the enumerations and their schema strings,
-- `Sections` the structs that the probes fill, `Snapshot` the summary and the top-level state.
-- A `double` is of the parameter type F; a system_clock time_point counts microseconds since the
-- epoch.
pub mod Enums
pub mod Sections
pub mod Snapshot
