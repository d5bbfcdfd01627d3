-- ===== src/Tests.antt =====
-- Runs of the models at small inputs, and the theorems at inputs that meet their hypotheses.
mod Kernels
mod ScullDev
mod ScullPipe
mod Access
mod ScullMem
mod Snull
mod Sbull
