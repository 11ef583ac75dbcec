-- ===== src/Tests.antt =====
-- Runs of the code on concrete inputs, and the theorems at concrete inputs.
pub mod Machine
mod Cast
mod Expr
mod Fold
mod Codec
mod Recovery
mod Buffer
mod Proto
mod Cache
mod Heap
mod Dirty
