-- ===== src/Store.antt =====
-- include/pgmem/store/store_adapter.h: the interface of the storage backends, as a record of
-- operations on a state, and what the engine relies on as a record of laws.
pub mod InMemory
use poorguy_mem.Common.{
  ℕ, Bool, true, false, text, ◌≡◌, ◌&&◌, Option, none, some, List, [], ◌∷◌, Text, text_eq,
  if◌then◌else◌,
}
use poorguy_mem.Types.{
  StoreResult, GetResult, KeyValueEntry, WriteEntry, WriteOp, StoreUsage, StoreCompactTriggerResult,
}

-- What a scan returns: the entries and the text of the error parameter.
pub record ScanResult : Type 0 where
  pub entries : List KeyValueEntry
  pub error : Text

pub record StoreAdapter : Type 1 where
  pub State : Type 0
  pub put : State → Text → Text → Text → ℕ → StoreResult × State
  pub get : State → Text → Text → GetResult
  pub delete : State → Text → Text → ℕ → StoreResult × State
  pub scan : State → Text → Text → Text → ℕ → ScanResult
  pub batch_write : State → List WriteEntry → StoreResult × State
  pub approximate_usage : State → StoreUsage
  pub trigger_store_compact_async : State → StoreCompactTriggerResult × State

-- `IStoreAdapter::TriggerStoreCompactAsync`, which a backend may override.
unfoldable pub default_store_compact : {State : Type 0} → State → StoreCompactTriggerResult × State
default_store_compact s = (
  record {
    triggered = false;
    noop = true;
    busy = false;
    async = true;
    partition_count = 0;
    message = text "store compact noop for backend";
  },
  s,
)

-- The abstract view: what each key of each namespace holds.
abbrev pub Content : Type 0
Content = Text → Text → Option Text

abbrev pub write_value : WriteOp → Text → Option Text
write_value WriteOp.upsert value = some value
write_value WriteOp.delete value = none

abbrev pub apply_entry : Content → WriteEntry → Content
apply_entry c e ns key =
    if text_eq e.entry.name_space ns && text_eq e.entry.key key
    then write_value e.op e.entry.value
    else c ns key

abbrev pub apply_entries : Content → List WriteEntry → Content
apply_entries c [] = c
apply_entries c (e ∷ es) = apply_entries (apply_entry c e) es

abbrev pub get_value : GetResult → Option Text
get_value r = if r.found then some r.value else none
