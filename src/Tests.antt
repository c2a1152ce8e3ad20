-- ===== src/Tests.antt =====
-- Runs of the definitions on small inputs, and the theorems at concrete inputs.
mod Data
mod GraphTests
mod ManagerTests
mod RegressionTests
mod PlanTests
mod RuntimeTests
mod Office
mod HistoryTests
mod RunsTests
mod UsageTests
mod ContractTests
