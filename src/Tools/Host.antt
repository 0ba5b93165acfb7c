-- ===== src/Tools/Host.antt =====
-- What the tools of internal/tools use of packages os, time, context and encoding/json.
use durable_agent_execution.Prelude.{ℕ, String, Bool, Option, List}
use durable_agent_execution.Prelude.Int64.{ℤ}
use durable_agent_execution.Json.{Bytes}
use durable_agent_execution.Events.Codec.{TimeText}
use durable_agent_execution.Idempotency.Process.{Process}

-- A line of a file by the writes that it consists of: it is blank, holds what one write put there, or
-- holds several, one after the other.
abbrev pub Line : Type 0
Line = List Bytes

-- What Write comes back with: all of the line, or an error, after none of it or after some of it.
pub data Write : Type 0 where
  whole : Write
  nothing : String → Write
  partial : String → Write

-- What ReadFile comes back with: the lines, the last one possibly unfinished.
pub data Content : Type 0 where
  missing : Content
  unreadable : String → Content
  content : List Line → Content

-- An operation that may fail answers with the text of its error.
pub record Host (W : Type 0) : Type 0 where
  pub text : TimeText
  -- the error text of Unmarshal
  pub json_error : String
  -- whether a line fits the buffer of the Scanner, by its length
  pub fits_buffer : Line → Bool
  pub ctx_error : Process W (Option String)
  pub make_directory : Process W (Option String)
  pub open_file : Process W (Option String)
  pub write : Bytes → Process W Write
  pub sync : Process W (Option String)
  pub close : Process W (Option String)
  pub read_file : Process W Content
  pub now : Process W ℕ
  pub pid : ℤ
  pub getenv : String → Process W String
  -- time.ParseDuration, in nanoseconds
  pub parse_duration : String → Option ℤ
  -- a timer, or the error of a context that was done before it
  pub wait : ℕ → Process W (Option String)
