-- ===== src/Ipc.antt =====
-- registry/reg_ipc.c: the message queue of a registry key. The functions are about the key that the path
-- names: that it exists or can be made is taken for granted, and `none` is a key without a queue. The
-- chain of message nodes is the list of the messages from the head on, and the tail is its last node.
-- What `poll` answers for the bytes in a pipe is an argument, and so is what a pipe takes of what is written; both
-- ends of a pipe are open.
pub mod Order
pub mod Piped
mod Tests
use base_nexs.Common.{
  ℕ, zero, suc, ◌+◌, ◌-◌, Bool, true, false, Option, none, some, List, [], ◌∷◌, ◌++◌, leb, ltb,
  length, take, ◌==◌, if◌then◌else◌,
}
use base_nexs.Value.{Value, err}
use base_nexs.Wire.{pipe_serialize_value, pipe_deserialize_value}

abbrev pub msg_queue_size : ℕ
msg_queue_size = 64

-- `RegIpcQueue`. `pipe` holds the bytes that were written and not read.
pub record Queue : Type 0 where
  pub messages : List Value
  pub count : ℕ
  pub max_count : ℕ
  pub use_pipe : Bool
  pub pipe : List ℕ

-- A `max_count` of 0 is any that is not positive.
unfoldable pub reg_ipc_init_queue : Option Queue → ℕ → Queue
reg_ipc_init_queue (some q) max_count = q
reg_ipc_init_queue none max_count = record {
  messages = [];
  count = 0;
  max_count = if ltb 0 max_count then max_count else msg_queue_size;
  use_pipe = false;
  pipe = [];
}

-- The writes of `pipe_write_all` for one message, up to the one that fails. A pipe that holds `held` bytes takes
-- `accepts held n` of `n` bytes before a write fails, or all of them.
unfoldable pub pipe_write : (ℕ → ℕ → ℕ) → List ℕ → List ℕ → List ℕ × Bool
pipe_write accepts pipe bytes =
    let n = accepts (length pipe) (length bytes) in
    if leb (length bytes) n then (pipe ++ bytes, true) else (pipe ++ take n bytes, false)

-- `true` is 0, and `false` is -1.
unfoldable pub reg_ipc_send : (ℕ → ℕ → ℕ) → Option Queue → Value → Queue × Bool
reg_ipc_send accepts k msg =
    let q = reg_ipc_init_queue k msg_queue_size in
    if q.use_pipe
    then (let (pipe, sent) = pipe_write accepts q.pipe (pipe_serialize_value msg) in
        (record q { pipe = pipe }, sent))
    else if leb q.max_count q.count
    then (q, false)
    else (record q { messages = q.messages ++ (msg ∷ []); count = q.count + 1 }, true)

-- What a call of `reg_ipc_recv` answers; `stuck` is no answer: the fuel ran out.
pub data Answer : Type 0 where
  nothing : Answer
  message : Value → Answer
  stuck : Answer

abbrev pub accepted : Value → Answer
accepted (err code msg) = if code == 99 then nothing else message (err code msg)
accepted v = message v

unfoldable pub recv_pipe : (List ℕ → Bool) → ℕ → Queue → Queue × Answer
recv_pipe readable fuel q =
    if readable q.pipe
    then elim (pipe_deserialize_value fuel q.pipe) [
      | none ↦ (q, stuck)
      | some (v, rest) ↦ (record q { pipe = rest }, accepted v)
    ]
    else (q, nothing)

unfoldable pub recv_memory : Queue → Queue × Answer
recv_memory q = elim q.messages [
  | [] ↦ (q, nothing)
  | msg ∷ rest ↦
      if q.count == 0
      then (q, nothing)
      else (record q { messages = rest; count = q.count - 1 }, message msg)
]

unfoldable pub reg_ipc_recv : (List ℕ → Bool) → ℕ → Queue → Queue × Answer
reg_ipc_recv readable fuel q = if q.use_pipe then recv_pipe readable fuel q else recv_memory q

unfoldable pub reg_ipc_pending : (List ℕ → Bool) → Option Queue → ℕ
reg_ipc_pending readable none = 0
reg_ipc_pending readable (some q) =
    if q.use_pipe then (if readable q.pipe then 1 else 0) else q.count

-- The messages are written one after the other; that a write fails is not looked at.
unfoldable pub drain : (ℕ → ℕ → ℕ) → List ℕ → List Value → List ℕ
drain accepts pipe [] = pipe
drain accepts pipe (v ∷ vs) = drain accepts (pipe_write accepts pipe (pipe_serialize_value v)).0 vs

-- One key of `walk_and_enable_pipes`, where making the pipe succeeds.
unfoldable pub enable_pipes : (ℕ → ℕ → ℕ) → Queue → Queue
enable_pipes accepts q =
    if q.use_pipe
    then q
    else record q { messages = []; count = 0; use_pipe = true; pipe = drain accepts [] q.messages }
