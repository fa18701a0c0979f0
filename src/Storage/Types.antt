-- ===== src/Storage/Types.antt =====
-- backend/harness/storage/repository.py: snapshot wrappers, events and the actor of a command, for
-- any payload and any command result. Digests of payloads and event ids, which nothing reads back,
-- are left out.
use agentic_design_harness.Common.{ℕ, String, Bool, true, false, ◌&&◌, Option, List}
use agentic_design_harness.Storage.Keyed.{Key, same_key, Table}

pub record Actor : Type 0 where
  pub actor_type : String
  pub actor_id : String

pub data EventType : Type 0 where
  object_committed object_removed : EventType

pub record Wrapper (P : Type 0) : Type 0 where
  pub object_type : String
  pub object_id : String
  pub revision : ℕ
  pub payload : P
  pub committed_at : ℕ

pub record Event (P R : Type 0) : Type 0 where
  pub event_type : EventType
  pub object_type : String
  pub object_id : String
  pub revision : ℕ
  pub actor : Actor
  pub command : String
  pub idempotency_key : String
  pub occurred_at : ℕ
  pub snapshot : Option (Wrapper P)
  pub command_result : Option R
  pub request_sha256 : Option String

-- What a snapshot file holds: a wrapper, or bytes that do not parse.
pub data Content (P : Type 0) : Type 0 where
  readable : Wrapper P → Content P
  unreadable : Content P

pub record Directory (P R : Type 0) : Type 0 where
  pub events : List (Event P R)
  pub files : Table (Content P)

abbrev pub is_committed : EventType → Bool
is_committed object_committed = true
is_committed object_removed = false

abbrev pub key_of : {P R : Type 0} → Event P R → Key
key_of e = record { object_type = e.object_type; object_id = e.object_id }

-- `event["event_type"] == "OBJECT_COMMITTED"` for this object
abbrev pub commits : {P R : Type 0} → Key → Event P R → Bool
commits k e = is_committed e.event_type && same_key k (key_of e)
