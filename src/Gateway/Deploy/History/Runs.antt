-- ===== src/Gateway/Deploy/History/Runs.antt =====
-- Sequences of operations on the manager, beside their history.
use go_php.Gateway.Deploy.History.{History}
use go_php.Gateway.Deploy.History.Refines.{Refines}
