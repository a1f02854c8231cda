-- ===== src/Tests.antt =====
-- Runs on concrete inputs, and the theorems at inputs that meet their hypotheses.
mod Args
mod Rules
mod Runs
mod Ports
mod Addresses
mod Globs
mod Options
mod Kernels
mod Sockets
mod Systemd
mod Preload
mod Wrapper
mod Yaml
mod Logging
mod RealCalls
