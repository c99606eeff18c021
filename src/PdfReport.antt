-- ===== src/PdfReport.antt =====
-- The PDF of an analysis report (`src/ai/generate_report_pdf.py`).
pub mod Values
pub mod Canvas
pub mod Rows
pub mod Details
pub mod History
pub mod Page
