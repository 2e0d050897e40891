-- ===== src/Controller/Handlers/Health.antt =====
-- `Healthz` of bundler/src/controller/main.go.
use pay_gas_x.Geth.{Geth}
