-- ===== src/Ingest/Examples.antt =====
-- A batch that the channel refuses.
use evald.Prelude.{◌≡◌, refl, true, false, none, []}
use evald.Calls.{filter, retain_each, named, may_carry_keys}
use evald.Calls.Examples.{small, batch}
use evald.Writer.{backpressure, disk_full}
use evald.Ingest.{channel_full, Ingest, refused, reject_if_disk_full, append_batch, ingest_batch}
use evald.Ingest.Retry.{ingest_batch-retry}

abbrev open_store : Ingest
open_store = record {
  disk_blocked = false;
  disk_free = 1000;
  disk_min_free_bytes = 10;
  disk_blocked_spans = 0;
  calls = small;
  queued = [];
}

abbrev blocked_store : Ingest
blocked_store = record {
  disk_blocked = true;
  disk_free = 5;
  disk_min_free_bytes = 10;
  disk_blocked_spans = 0;
  calls = small;
  queued = [];
}

refuses_full : (ingest_batch (λ l. l) open_store batch none channel_full).0 ≡ refused backpressure
unfolding ingest_batch reject_if_disk_full append_batch may_carry_keys filter retain_each named
refuses_full = refl

refuses_blocked :
    (ingest_batch (λ l. l) blocked_store batch none channel_full).0 ≡ refused (disk_full 5 10)
unfolding ingest_batch reject_if_disk_full append_batch may_carry_keys filter retain_each named
refuses_blocked = refl

ingest_batch-retry_example :
    (filter (ingest_batch (λ l. l) open_store batch none channel_full).1.calls batch).0
    ≡ (filter small batch).0
ingest_batch-retry_example =
    ingest_batch-retry (λ l. l) open_store batch none channel_full backpressure (λ l. refl) refl
