-- ===== src/Model.antt =====
-- src/shared/models: the records that the services store and exchange. A text is a `String`, an
-- optional field an `Option`, and an ISO time stamp the number of milliseconds that it denotes.
mod Json
mod Agent
mod Session
mod Worker
mod Snapshot
mod Delegation
mod Fanout
mod Pairing
mod Interaction
mod EventTypes
mod Event
unfoldable pub use Json.*
unfoldable pub use Agent.*
unfoldable pub use Session.*
unfoldable pub use Worker.*
unfoldable pub use Snapshot.*
unfoldable pub use Delegation.*
unfoldable pub use Fanout.*
unfoldable pub use Pairing.*
unfoldable pub use Interaction.*
unfoldable pub use EventTypes.*
unfoldable pub use Event.*
