-- ===== src/Tests.antt =====
-- Runs of the model on concrete inputs, and the theorems at inputs that meet their hypotheses.
mod Protocol
mod Stream
mod Storage
mod Command
mod Net
mod EventLoop
mod Worker
mod Cli
mod Pool
mod Io
mod Server
mod Start
mod Descriptors
mod Bench
