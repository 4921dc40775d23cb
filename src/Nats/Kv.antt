-- ===== src/Nats/Kv.antt =====
-- The interfaces INatsKeyValue and INatsObjectStore of internal/infrastructure/nats/mock.go. What
-- stands behind them is JetStream, which is not part of the repository: a bucket is a value of an
-- abstract type `S`, a record of operations says what a call answers and how the bucket changes,
-- and `KeyValueLaws` states what the code relies on. A read leaves the bucket as it is, and an
-- operation may fail in any way that the laws leave open.
use lfx_v2_project_service.Prelude.{ℕ, String, Option, List}
use lfx_v2_project_service.Domain.Error.{KvError, Error, kv}
use lfx_v2_project_service.Exec.{Result, ok, err}

-- The bytes of a value: the JSON text of a record, or a UID, which is no JSON text.
pub data Value (A : Type 0) : Type 0 where
  json : A → Value A
  plain : String → Value A

pub record Entry (A : Type 0) : Type 0 where
  pub value : Value A
  pub revision : ℕ

pub data Reply (A : Type 0) : Type 0 where
  done : A → Reply A
  failed : KvError → Reply A

-- json.Unmarshal into a record of the bucket's type
abbrev pub unmarshal_value : {A : Type 0} → Value A → Result A
unmarshal_value (json a) = ok a
unmarshal_value (plain s) = err Error.json

-- string(entry.Value()), for an entry that holds a UID
abbrev pub value_text : {A : Type 0} → Value A → String
value_text (json a) = ""
value_text (plain s) = s

abbrev pub from_reply : {A : Type 0} → Reply A → Result A
from_reply (done a) = ok a
from_reply (failed c) = err (kv c)

pub record KeyValue (S A : Type 0) : Type 0 where
  pub list_keys : S → Reply (List String)
  pub get : S → String → Reply (Entry A)
  pub create : String → Value A → S → Reply ℕ × S
  pub put : String → Value A → S → Reply ℕ × S
  pub update : String → Value A → ℕ → S → Reply ℕ × S
  -- the option jetstream.LastRevision, or none
  pub delete : String → Option ℕ → S → Reply (Unit {0}) × S
  pub purge : String → S → Reply (Unit {0}) × S

pub record ObjectStore (S : Type 0) : Type 0 where
  pub get : S → String → Reply (List ℕ)
  pub put : String → List ℕ → S → Reply (Unit {0}) × S
  pub delete : String → S → Reply (Unit {0}) × S
