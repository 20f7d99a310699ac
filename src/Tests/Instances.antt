-- ===== src/Tests/Instances.antt =====
-- Concrete functions for what the development takes from elsewhere, with the laws assumed of them.
use a2abridge.TaskStore.Token.{CodecLaws}
use a2abridge.TaskStore.Listing.{TokenCodec}
use a2abridge.A2a.{States}
use a2abridge.TaskStore.Data.{Sdk, SdkLaws}
use a2abridge.Prelude.{
  length, take, drop, Text, codes, text_eq, ℕ, zero, suc, ◌+◌, ◌-◌, ◌%◌, ◌≡◌, refl, ap, Option,
  none, some, List, [], ◌∷◌, ◌++◌, arith,
}
use a2abridge.Store.Entry.{second, SnapshotEntry, Env, EnvLaws}

-- A codec of snapshots: every text and the list behind its length.
unfoldable pub put : Text → Text → Text
put t rest = length t ∷ t ++ rest

unfoldable pub read : Text → Option (Text × Text)
read [] = none
read (n ∷ rest) = some (take n rest, drop n rest)

take-put : (t rest : Text) → take (length t) (t ++ rest) ≡ t
take-put [] rest = refl
take-put (c ∷ t) rest = ap (◌∷◌ c) (take-put t rest)

drop-put : (t rest : Text) → drop (length t) (t ++ rest) ≡ rest
drop-put [] rest = refl
drop-put (c ∷ t) rest = drop-put t rest

read-put : (t rest : Text) → read (put t rest) ≡ some (t, rest)
unfolding put read
read-put t rest = λ i. some (take-put t rest i, drop-put t rest i)

infixl 10 ◌>>=◌
abbrev ◌>>=◌ {ℓ κ} : {A : Type ℓ} {B : Type κ} → Option A → (A → Option B) → Option B
none >>= f = none
some a >>= f = f a

abbrev put_entry : SnapshotEntry → Text → Text
put_entry e rest =
    put e.message_id (put e.task_id (put e.context_id (put e.sender (put e.text (put e.ts rest)))))

abbrev read_entry : Text → Option (SnapshotEntry × Text)
read_entry b = do
  (message_id, b) ← read b
  (task_id, b) ← read b
  (context_id, b) ← read b
  (sender, b) ← read b
  (text, b) ← read b
  (ts, b) ← read b
  some (
    record {
      message_id = message_id;
      task_id = task_id;
      context_id = context_id;
      sender = sender;
      text = text;
      ts = ts;
    },
    b,
  )

read_entry-put : (e : SnapshotEntry) (rest : Text) → read_entry (put_entry e rest) ≡ some (e, rest)
read_entry-put e rest = rw (
  read-put e.message_id,
  read-put e.task_id,
  read-put e.context_id,
  read-put e.sender,
  read-put e.text,
  read-put e.ts,
)

unfoldable pub put_all : List SnapshotEntry → Text
put_all [] = []
put_all (e ∷ l) = put_entry e (put_all l)

unfoldable pub read_all : ℕ → Text → Option (List SnapshotEntry)
read_all zero b = some []
read_all (suc n) b = do (e, b) ← read_entry b; l ← read_all n b; some (e ∷ l)

read_all-put : (l : List SnapshotEntry) → read_all (length l) (put_all l) ≡ some l
unfolding read_all put_all
read_all-put [] = refl
read_all-put (e ∷ l) = rw (read_entry-put e (put_all l), read_all-put l)

abbrev decode_all : Text → Option (List SnapshotEntry)
decode_all [] = none
decode_all (n ∷ b) = read_all n b

abbrev pub example_env : Env
example_env = record {
  format_time = λ t. (t - t % second) ∷ [];
  parse_time = λ t. elim t [ [] ↦ none | n ∷ _ ↦ some n ];
  encode = λ l. length l ∷ put_all l;
  decode = decode_all;
}

pub example_env_laws : EnvLaws example_env
example_env_laws = record {
  parse-format = λ t. refl;
  format-ne-nil = λ t e. cc;
  decode-encode = λ l. read_all-put l;
  encode-ne-nil = λ l e. cc;
}

abbrev pub completed : Text
completed = codes "completed"

abbrev pub example_sdk : Sdk
example_sdk = record {
  clone = λ t. some t;
  terminal = λ s. text_eq s completed;
  missing = 0;
  in_utc = λ t. record t { zone = codes "UTC" };
}

pub example_sdk_laws : SdkLaws example_sdk
example_sdk_laws = record { clone-eq = λ t. refl; missing_zero = refl; same_instant = λ t. refl }

abbrev pub example_codec : TokenCodec
example_codec = record {
  encode64 = λ b. b;
  decode64 = λ b. some b;
  format_nano = λ t. (t + 96) ∷ [];
  parse_nano = λ b. elim b [ [] ↦ none | n ∷ _ ↦ some (n - 96) ];
}

pub example_codec_laws : CodecLaws example_codec
example_codec_laws = record {
  decode-encode = λ b. refl;
  encode-ne-nil = λ c b e. cc;
  parse-format = λ t. ap some (omega arith);
  no_separator = λ t. ground arith;
}

abbrev pub example_states : States
example_states = record {
  terminal = λ s. text_eq s completed;
  unspecified = [];
  submitted = codes "submitted";
  working = codes "working";
  completed = completed;
  canceled = codes "canceled";
  rejected = codes "rejected";
}
