-- ===== src/Kitties/Effects.antt =====
-- What each dispatchable of pallets/kitties/src/lib.rs does to a valid storage when it succeeds:
-- the event that it emits, by whom, and how the book of kitties changes with it.
pub mod Create
pub mod Breed
pub mod Transfer
pub mod Price
pub mod Buy
