-- ===== src/Analysis/Total.antt =====
-- When an analysis gives a report.
