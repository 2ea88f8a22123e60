-- ===== src/Market.antt =====
-- Market prices: the daily points of a card (app/tasks/price_snapshot.py) and the alerts that users set on
-- it (app/services/market).
pub mod Json
pub mod Alerts
pub mod History
