-- ===== src/Examples.antt =====
-- Tests on concrete input, and examples at which the hypotheses of the theorems hold.
mod Sample
mod Tests
mod Chain
mod Consumer
mod Producer
mod Boot
mod Image
mod Capsule
mod Parsing
mod Building
mod Bridging
