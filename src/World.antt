-- ===== src/World.antt =====
-- What an operation of Central runs in: its stored records, the host's clock and random source, the
-- other tasks that run while it waits, and what it published. An operation is an action: it returns
-- or throws, and what was written before a throw stays written.
mod State
mod Action
pub mod Retry
pub mod Contend
unfoldable pub use State.*
unfoldable pub use Action.*
