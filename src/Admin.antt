-- ===== src/Admin.antt =====
-- admin.rs: the checks of requests before they are sent (`Requests`) and what the futures make of
-- the results (`Results`).
pub mod Requests
pub mod Results
pub mod Building
pub mod BuildingLaws
pub mod Futures
pub mod FuturesLaws
pub mod Laws
