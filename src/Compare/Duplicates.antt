-- ===== src/Compare/Duplicates.antt =====
-- A report may hold several findings of one key, such as one for each hostPath volume of a workload.
-- The comparison sees the first of them alone.
