-- ===== src/Delivery.antt =====
-- twin/delivery.py: `TwinDelivery`, which hands the settings of the queue to the box one at a
-- time and follows the settings that the cloud sends. Readings of `time.monotonic()` are
-- arguments, in microseconds; wall clock and random numbers come from a supply, one draw for each
-- record that is made. An object of `_cloud_pending` is told from the others by a number, which
-- stands for its identity: its audit id keeps it from being equal to another.
pub mod State
pub mod Cloud
pub mod Follow
pub mod Local
pub mod Counters
pub mod Keeps
pub mod Exclusive
pub mod Selects
pub mod Drops
pub mod Terminal
pub mod Acknowledged
pub mod Steps
