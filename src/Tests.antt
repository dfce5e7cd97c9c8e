-- ===== src/Tests.antt =====
-- Runs of the definitions on concrete inputs, and the theorems at such inputs.
mod Rationals
mod Values
mod Runs
mod Examples
mod ClusterExamples
mod PolicyValues
mod PolicyExamples
mod ControllerExamples
mod ProgramExamples
mod CopyExamples
mod StoreExamples
mod ComposedExamples
mod TimedExamples
mod DeletionExamples
