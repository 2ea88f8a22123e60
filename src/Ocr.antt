-- ===== src/Ocr.antt =====
-- Reading cards: the spending cap of the OCR provider (app/services/ocr).
pub mod Budget
