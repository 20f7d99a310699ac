-- ===== src/A2a.antt =====
-- The A2A data that the program exchanges with peers (package a2a of a2a-go, which is not under
-- this repository): the fields that the program reads and writes, and the SDK's operations as
-- parameters.
use a2abridge.Prelude.{Text, ℕ, Bool, Option, List}

-- `*a2a.Part`: none is the nil pointer, otherwise what `Part.Text()` returns ("" for other kinds).
abbrev pub Part : Type 0
Part = Option Text

-- `*a2a.Artifact` by its parts.
abbrev pub Artifact : Type 0
Artifact = Option (List Part)

-- A `time.Time`: nanoseconds since the year 0, and the zone that it prints in.
pub record Stamp : Type 0 where
  pub instant : ℕ
  pub zone : Text

pub record Message : Type 0 where
  pub id : Text
  pub parts : List Part
  pub sender : Option Text  -- Metadata["from"], when it holds a string

pub record Status : Type 0 where
  pub state : Text  -- a2a.TaskState is a string type
  pub message : Option Message
  pub timestamp : Option Stamp

pub record Task : Type 0 where
  pub id : Text
  pub context_id : Text
  pub status : Status
  pub artifacts : List Artifact
  pub history : List Message

-- What the program uses of the SDK's task states.
pub record States : Type 0 where
  pub terminal : Text → Bool  -- TaskState.Terminal
  pub unspecified : Text
  pub submitted : Text
  pub working : Text
  pub completed : Text
  pub canceled : Text
  pub rejected : Text
