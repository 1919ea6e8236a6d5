-- ===== src/Tests.antt =====
-- The code on small inputs, and each theorem at an input that meets its hypotheses.
mod Setup
mod Kernel
mod Request
mod Pool
mod Entry
mod Sort
mod Peer
mod Membership
mod Transfer
mod Pipe
mod Drawn
mod Fed
mod Parallel
mod Wire
