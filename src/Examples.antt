-- ===== src/Examples.antt =====
-- Concrete runs of the models, and each theorem applied to data on which its conditions hold.
mod Data
mod Locks
mod Ends
mod Restores
mod Clocks
mod Passes
mod Boots
mod Targets
mod Engines
mod Configs
mod Edits
mod Devices
mod Rounds
mod Replays
mod Mirrors
