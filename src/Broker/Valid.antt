-- ===== src/Broker/Valid.antt =====
-- The handlers of services/auth-broker/internal/broker/broker.go keep the shared tables well formed.
