-- ===== src/Types/Sections.antt =====
-- inc/types.hpp: the structs that the probes fill. `T_default` is `T{}`, the member initializers.
mod Host
mod Resources
mod Events
unfoldable pub use Host.*
unfoldable pub use Resources.*
unfoldable pub use Events.*
