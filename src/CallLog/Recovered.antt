-- ===== src/CallLog/Recovered.antt =====
-- Once the log can be written again, the next call is recorded and the outage is over.
use persistence_memory.Prelude.{text_eq, nat_eq, pair_eq}
use persistence_memory.CallLog.Ready.{Ready}
