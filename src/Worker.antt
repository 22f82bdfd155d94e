-- ===== src/Worker.antt =====
-- cairnq-py/cairnq/worker.py: registrations, the claim planner, and one handler call from delivery to
-- settlement.
pub mod Registry
pub mod Deliveries
pub mod Planner
pub mod Execution
pub mod Loop
