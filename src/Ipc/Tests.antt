-- ===== src/Ipc/Tests.antt =====
-- Runs of the message queues.
use base_nexs.Common.{
  ℕ, ◌-◌, length, ◌≤◌, ◌≡◌, refl, Bool, true, false, none, some, List, [], ◌∷◌, arith,
}
use base_nexs.Value.{nil, int, err}
use base_nexs.Ipc.{
  Queue, reg_ipc_init_queue, reg_ipc_send, enable_pipes, pipe_write, drain, message,
}
use base_nexs.Wire.{pipe_serialize_value, header, le_write}
use base_nexs.Ipc.Order.{Holds, send_all, recv_n, send-full}
use base_nexs.Ipc.Piped.{HasRoom, drained, recv_n-enable_pipes}

-- A pipe for 100 bytes, of which a write takes what fits.
abbrev until_full : ℕ → ℕ → ℕ
until_full held n = 100 - held

until_full-HasRoom : HasRoom until_full 100
until_full-HasRoom held n h = omega arith

-- Room for two messages, and one in it.
abbrev half_full : Queue
half_full = (reg_ipc_send until_full (some (reg_ipc_init_queue none 2)) (int 7)).0

abbrev full : Queue
full = (reg_ipc_send until_full (some half_full) nil).0

abbrev not_empty : List ℕ → Bool
not_empty [] = false
not_empty (b ∷ bs) = true

half_full-Holds : Holds half_full (int 7 ∷ [])
unfolding reg_ipc_send reg_ipc_init_queue
half_full-Holds = record { in_memory = refl; contents = refl; counted = refl }

full-Holds : Holds full (int 7 ∷ nil ∷ [])
unfolding reg_ipc_send reg_ipc_init_queue
full-Holds = record { in_memory = refl; contents = refl; counted = refl }

no_room : full.max_count ≤ 2
unfolding reg_ipc_send reg_ipc_init_queue
no_room = omega arith

full_refuses : reg_ipc_send until_full (some full) (int 1) ≡ (full, false)
full_refuses = send-full until_full full (int 1) (int 7 ∷ nil ∷ []) full-Holds no_room

two_fit : length (drained (int 7 ∷ err 3 [] ∷ [])) ≤ 100
unfolding pipe_serialize_value header le_write
two_fit = omega arith

-- The error that was sent with code 3 arrives with code 0.
recv_n-enable_pipes_example :
    recv_n not_empty 1 2 (send_all until_full (enable_pipes until_full half_full) (err 3 [] ∷ []))
    ≡ message (int 7) ∷ message (err 0 []) ∷ []
recv_n-enable_pipes_example =
    recv_n-enable_pipes not_empty 1 (λ b bs. refl) until_full 100 half_full (int 7 ∷ [])
      (err 3 [] ∷ []) until_full-HasRoom two_fit half_full-Holds ((omega arith, omega arith), tt)
      (((tt, omega arith), omega arith), tt)

-- A pipe with no room for the message refuses it, and holds a part of it.
no_room_left :
    (reg_ipc_send (λ held n. 2) (some (enable_pipes until_full (reg_ipc_init_queue none 2))) (int 7)
      ≡ (record (enable_pipes until_full (reg_ipc_init_queue none 2)) { pipe = 1 ∷ 7 ∷ [] }, false))
unfolding reg_ipc_send reg_ipc_init_queue enable_pipes pipe_write drain pipe_serialize_value header
    le_write
no_room_left = refl
