-- ===== src/Memory/Null.antt =====
-- totalrecall/memory/adapters/null/adapter.py: the adapter that holds nothing.
use totalrecall.Common.{true, false, none, []}
use totalrecall.Common.Outcome.{ok}
use totalrecall.Memory.Models.{MemoryHealthStatus, MemoryAdapter}

unfoldable pub null_adapter : (W : Type 0) → MemoryAdapter W
null_adapter W = record {
  adapter_version = "null";
  search = λ request w. (ok (record { items = []; adapter_version = "null" }), w);
  get = λ request w. (ok none, w);
  upsert = λ request w. (ok request.memory, w);
  delete = λ request w.
      (ok (record { entity_id = request.entity_id; deleted = false; adapter_version = "null" }), w);
  health = λ w. (
    ok (record { status = MemoryHealthStatus.degraded; adapter_version = "null"; degraded = true }),
    w,
  );
  capabilities = λ w. (
    ok (record {
      adapter_version = "null";
      supports_search = true;
      supports_get = true;
      supports_upsert = false;
      supports_delete = false;
      supports_shadow_read = false;
    }),
    w,
  );
}
