-- ===== src/Ipc/Order.antt =====
-- Messages leave a queue in the order in which they were sent.
use base_nexs.Common.{
  ℕ, zero, suc, ◌≤◌, ◌≡◌, Bool, true, false, some, List, [], ◌∷◌, length, leb, le→leb,
}
use base_nexs.Value.{Value}
use base_nexs.Ipc.{Queue, reg_ipc_send, reg_ipc_recv, reg_ipc_init_queue, Answer}

-- The sender's and the receiver's loops: all messages one after the other, and so many receives.
unfoldable pub send_all : (ℕ → ℕ → ℕ) → Queue → List Value → Queue
send_all accepts q [] = q
send_all accepts q (v ∷ vs) = send_all accepts ((reg_ipc_send accepts (some q) v).0) vs

unfoldable pub recv_n : (List ℕ → Bool) → ℕ → ℕ → Queue → List Answer
recv_n readable fuel zero q = []
recv_n readable fuel (suc n) q =
    let s = reg_ipc_recv readable fuel q in s.1 ∷ recv_n readable fuel n (s.0)

-- A queue in memory, and what it holds.
pub record Holds (q : Queue) (vs : List Value) : Type 0 where
  pub in_memory : q.use_pipe ≡ false
  pub contents : q.messages ≡ vs
  pub counted : q.count ≡ length vs

-- A message to a queue in memory that is full is refused, and the queue stays as it was.
pub send-full :
    (accepts : ℕ → ℕ → ℕ) (q : Queue) (v : Value) (vs : List Value)
    → Holds q vs
    → q.max_count ≤ length vs
    → reg_ipc_send accepts (some q) v ≡ (q, false)
unfolding reg_ipc_send reg_ipc_init_queue
send-full accepts q v vs h g =
    let e : leb q.max_count q.count ≡ true = rw h.counted (le→leb q.max_count (length vs) g) in
    rw (h.in_memory, e)
