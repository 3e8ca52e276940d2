-- ===== src/UserHal.antt =====
-- packages/vhal-server/aidl/impl/4/fake_impl/userhal: the user HAL of the fake hardware, which reads
-- and makes the messages on users (src/UserHalHelper.cpp) and answers them (src/FakeUserHal.cpp).
-- An enum is its number. `VehiclePropValuePool::obtain` gives a new object for these properties, which
-- are of type MIXED.
mod Types
pub mod Parse
mod Replies
mod Fake
mod Tests
pub mod Layout
pub mod Stored
pub mod Requests
pub use Types.*
