-- ===== src/Examples.antt =====
-- Concrete ports and inputs, tests, and the theorems at them.
mod Line
mod Client
mod Bridge
mod Sanitizer
mod Keytool
mod Database
mod Anomaly
mod CommandAnalysis
mod Threads
mod PdfReport
mod Process
mod Generators
