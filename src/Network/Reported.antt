-- ===== src/Network/Reported.antt =====
-- internal/network/network.go: what `Analyze` reports.
