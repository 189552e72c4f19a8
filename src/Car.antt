-- ===== src/Car.antt =====
-- pkg/grpc/processing/car/car_processor.go: what one event knows of its cars, and the state machine
-- that turns car states into stints and pit stops.
pub mod Types
pub mod Drivers
pub mod Stints
pub mod Machine
pub mod Payload
pub mod Valid
pub mod Seats
pub mod Frame
pub mod Handlers
pub mod PitSwitch
pub mod Handling
pub mod Messages
pub mod Totality
pub mod Diagram
pub mod Following
pub mod Unknown
pub mod Registration
pub mod DriverChange
