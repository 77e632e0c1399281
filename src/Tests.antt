-- ===== src/Tests.antt =====
-- Concrete inputs: runs of the model, and each theorem at an input that meets its hypotheses.
mod Dir24
mod Stride8
mod Wide16
mod Batch
mod Api
mod Lua
mod Php
