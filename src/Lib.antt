-- ===== src/Lib.antt =====
-- Verification of the core of the vehicle HAL (VHAL): the service that clients call, the store of
-- property values, the checks and the creation of values, the pool of pending requests, the
-- subscription manager and the queues and timers between them, as
-- packages/vhal-types/aidl/impl/4/utils/common and packages/vhal-server/aidl/impl/4/vhal implement
-- them in C++.
--
-- A client of the HAL gets property values, sets them and subscribes to changes. DefaultVehicleHal
-- checks the values by VehicleUtils, gives the requests to the hardware and keeps their IDs in
-- PendingRequestPool until the hardware answers or a timeout passes. The hardware, in the fake
-- implementation, keeps the values in VehiclePropertyStore, which tells a callback of each change.
-- SubscriptionManager decides which clients a change is sent to and in what form, and tells the
-- hardware which properties somebody wants.
--
-- The files, each with its child modules:
--  * Prelude: numbers, tests, lists, sets and maps. A `std::unordered_map` is an association list and
--    a `std::unordered_set` a list; the code promises nothing of the order in which it goes over one,
--    and the order of the list stands for any.
--  * Floats: the operations on `float` and `double` that the code calls, as a record which the
--    definitions take as a parameter. Where a theorem needs a law of floats it is a hypothesis.
--  * HalTypes: the types of packages/vhal-types/aidl/android/hardware/automotive/vehicle and the
--    result type VhalResult.
--  * VehicleUtils: include/VehicleUtils.h and src/VehicleUtils.cpp. The type and group of a property
--    are bits of its ID; checkPropValue, checkValueRange and checkVendorMixedPropValue say which
--    values are well formed; sanitizeByResolution rounds; createVehiclePropValueVec makes values.
--  * VehiclePropertyStore: include/VehiclePropertyStore.h and src/VehiclePropertyStore.cpp. The state
--    is the map of records with their values; a method returns the new state and the events of
--    which the callback is told. The functions that make a token are a parameter.
--  * PendingRequestPool: include/PendingRequestPool.h and src/PendingRequestPool.cpp. Times are
--    natural numbers; a method that times requests out returns the calls of the callback.
--  * SubscriptionManager: include/SubscriptionManager.h and src/SubscriptionManager.cpp. The hardware
--    is a parameter, a function from the calls so far to the status of the last; the state keeps
--    these calls. A method returns the new state on an error too.
--  * VehicleObjectPool: the template ObjectPool of include/VehicleObjectPool.h.
--  * RecurrentTimer: include/RecurrentTimer.h and src/RecurrentTimer.cpp. The looper, a queue of
--    messages, is outside: the state keeps the calls of it, and `handle_message` is the delivery of a
--    message.
--  * ConcurrentQueue: include/ConcurrentQueue.h. The queue, and the consumer as a worker whose place in
--    its loop is part of the state, so that other threads' calls stand between its steps.
--  * ConnectedClient: include/ConnectedClient.h and src/ConnectedClient.cpp of the server. A client on
--    the pool, and how results and timeouts get to it.
--  * DefaultVehicleHal: include/DefaultVehicleHal.h and src/DefaultVehicleHal.cpp, with the versions of
--    the properties (packages/vhal-types/aidl/generated_lib/4/cpp/VersionForVehicleProperty.h). Its
--    child Requests has getValues and setValues, Subscriptions the options and subscribe, Supported the
--    supported values, Events what the hardware, the timers and the binder library call. The state keeps
--    the messages to the clients and the calls of the hardware, which are outside.
--  * UserHal: packages/vhal-server/aidl/impl/4/fake_impl/userhal. Parse has the readers of the messages
--    on users and Replies the makers of them (UserHalHelper.cpp), Fake the answers (FakeUserHal.cpp).
--  * GeneratorHub: packages/vhal-server/aidl/impl/4/fake_impl/GeneratorHub, the hub and, in Linear, the
--    linear generator. The thread of the hub is a place in its loop, as in ConcurrentQueue; where it
--    may use a reference that dangles, the place says that the behaviour is undefined.
--  * Obd2SensorStore: packages/vhal-server/aidl/impl/4/fake_impl/obd2frame/{include, src}/Obd2SensorStore,
--    the sensors of an OBD2 frame and the bitmask of those that are set. How many sensors the system
--    has is a parameter.
--
-- A definition has the name of the C++ function in snake case; PROJECT.json maps each to its lines.
-- All loops are structural recursion on the list the code goes over, so no fuel is needed. Property and
-- area IDs, token values and times have no upper bound here, since the code only compares them
-- (and takes bits of an ID); where the code can wrap around, as in the sizes that check counts, the
-- wrap is written out. Each class guards its state by one lock that every public method takes, so a
-- method is one step and an
-- interleaving a sequence of steps. getValues and setValues of DefaultVehicleHal hold its lock only
-- while they find the client; they are modelled with the results that the hardware gives to their
-- callback before it returns, and without calls of other threads in between.
--
-- Not modelled: logging and the text of error messages; the binder, GRPC and protobuf layers; the
-- JSON configuration and the generator that reads its events from JSON; the fake hardware but for its
-- user HAL, its generator hub with the linear generator, and its OBD2 sensor store;
-- the dump, the destructor and the test-only setters of DefaultVehicleHal; the Java and Python parts.
mod Prelude
pub mod Floats
pub mod HalTypes
pub mod VehicleUtils
pub mod VehiclePropertyStore
pub mod PendingRequestPool
pub mod SubscriptionManager
pub mod RecurrentTimer
pub mod VehicleObjectPool
pub mod ConnectedClient
pub mod ConcurrentQueue
pub mod DefaultVehicleHal
pub mod UserHal
pub mod GeneratorHub
pub mod Obd2SensorStore
