-- ===== src/DefaultVehicleHal.antt =====
-- packages/vhal-server/aidl/impl/4/vhal/{include/DefaultVehicleHal.h, src/DefaultVehicleHal.cpp}: the
-- service that the clients call, on top of the pool, the subscription manager and the hardware.
-- A method takes the state and returns the new one with its status. What is outside is a parameter:
-- `Hardware` is the `IVehicleHardware`, and `Outside` the binder library, the clock and the allocator
-- at the time of the call. A method is one step. `mLock` and the locks of the parts see to that, but
-- for `getValues` and `setValues`, which run without the lock where they call the hardware: there the
-- model has the results that the hardware gives before it returns, and no calls of other threads.
mod State
mod Versions
mod Requests
mod Subscriptions
mod Supported
pub mod Dispatch
mod Tests
pub mod Options
pub mod SupportedValues
pub mod Values
mod Events
mod Configs
mod Checks
pub use State.*
