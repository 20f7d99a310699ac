-- ===== src/TaskStore/Data.antt =====
-- internal/agent/taskstore.go: the data of the store, and what it takes from elsewhere.
use a2abridge.Prelude.{Text, Map, ℕ, ◌*◌, ◌≡◌, Bool, Option, none, some}
use a2abridge.A2a.{Stamp, Status, Task}

abbrev pub minute : ℕ
minute = 60 * 1_000_000_000

abbrev pub terminal_task_ttl : ℕ
terminal_task_ttl = 30 * minute

abbrev pub default_list_page_size : ℕ
default_list_page_size = 50

abbrev pub max_list_page_size : ℕ
max_list_page_size = 100

abbrev pub default_list_history_length : ℕ
default_list_history_length = 100

pub record TtlEntry : Type 0 where
  pub task : Task
  pub version : ℕ  -- an int64, as its bit pattern
  pub last_updated : ℕ

abbrev pub Tasks : Type 0
Tasks = Map TtlEntry

pub data Error : Type 0 where
  nil_task clone_failed already_exists not_found concurrent_modification : Error
  invalid_request invalid_params : Error

pub data Result {ℓ} (A : Type ℓ) : Type ℓ where
  ok : A → Result A
  err : Error → Result A

infixl 10 ◌>>=◌
abbrev pub ◌>>=◌ {ℓ κ} : {A : Type ℓ} {B : Type κ} → Result A → (A → Result B) → Result B
ok a >>= f = f a
err e >>= f = err e

-- What the store takes from elsewhere: `cloneTask` (a JSON round trip through the SDK's types),
-- `TaskState.Terminal`, `TaskVersionMissing`, and Time.UTC on a stamp.
pub record Sdk : Type 0 where
  pub clone : Task → Option Task
  pub terminal : Text → Bool
  pub missing : ℕ
  pub in_utc : Stamp → Stamp

-- What is documented of them: a clone is a deep copy, no stored version is the missing one, and a
-- change of zone keeps the instant.
pub record SdkLaws (sdk : Sdk) : Type 0 where
  pub clone-eq : (t : Task) → sdk.clone t ≡ some t
  pub missing_zero : sdk.missing ≡ 0
  pub same_instant : (t : Stamp) → (sdk.in_utc t).instant ≡ t.instant

-- `statusInUTC`
unfoldable pub status_in_utc : (Stamp → Stamp) → Status → Status
status_in_utc in_utc s = elim s.timestamp [
  | none ↦ s
  | some t ↦ record s { timestamp = some (in_utc t) }
]
