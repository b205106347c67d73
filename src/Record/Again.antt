-- ===== src/Record/Again.antt =====
-- A recording (`run` of bootstrap-sandbox/src/record.rs) and what `again` of
-- bootstrap-sandbox/src/bootstrap.rs does with its files.
use openmina_poc.Base.Map.{Map}
use openmina_poc.Files.{Files}
use openmina_poc.Ledger.Bin.{Bin}
use openmina_poc.Mina.{Mina}
