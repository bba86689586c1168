-- ===== src/Ipc/Piped.antt =====
-- Messages keep their order when a queue is moved to a pipe.
use base_nexs.Common.{
  ℕ, ◌+◌, ◌<◌, ◌≤◌, ◌≡◌, refl, ap, ◌∙◌, sym, arith, le→leb, Bool, true, some, List, [], ◌∷◌, ◌++◌,
  All, length, length-append, map, All-append,
}
use mathlib.Core.Path.{subst}
use mathlib.Core.List.{append_assoc, append-nil}
use base_nexs.Value.{
  Value, nil, int, float, str, arr, fn, err, bool, ref, ptr, null_str, null_ref, null_ptr,
}
use base_nexs.Wire.{pipe_serialize_value, header}
use base_nexs.Wire.RoundTrip.{
  IsSendable, received, depth, pipe_deserialize_value-pipe_serialize_value,
}
use base_nexs.Ipc.{
  Queue, reg_ipc_send, reg_ipc_recv, reg_ipc_init_queue, recv_pipe, enable_pipes, pipe_write, drain,
  message, accepted,
}
use base_nexs.Ipc.Order.{Holds, send_all, recv_n}

-- A message that a pipe carries as a value that `fuel` is enough to read.
abbrev pub Carried : ℕ → Value → Type 0
Carried fuel v = IsSendable v × (depth v < fuel)

-- The bytes of the messages one after the other.
abbrev pub drained : List Value → List ℕ
drained [] = []
drained (v ∷ vs) = pipe_serialize_value v ++ drained vs

-- A pipe that takes all that is written to it as long as it holds no more than `room` bytes then.
abbrev pub HasRoom : (ℕ → ℕ → ℕ) → ℕ → Type 0
HasRoom accepts room = (held n : ℕ) → held + n ≤ room → n ≤ accepts held n

-- A queue on a pipe, and the messages whose bytes are in it.
record Pipes (q : Queue) (vs : List Value) : Type 0 where
  on_pipe : q.use_pipe ≡ true
  bytes : q.pipe ≡ drained vs

accepted-received : (v : Value) → accepted (received v) ≡ message (received v)
accepted-received nil = refl
accepted-received (int n) = refl
accepted-received (float f) = refl
accepted-received (str s) = refl
accepted-received (arr xs) = refl
accepted-received (fn i) = refl
accepted-received (err c m) = refl
accepted-received (bool b) = refl
accepted-received (ref p) = refl
accepted-received (ptr p) = refl
accepted-received null_str = refl
accepted-received null_ref = refl
accepted-received null_ptr = refl

drained-append : (vs ws : List Value) → drained (vs ++ ws) ≡ drained vs ++ drained ws
drained-append [] ws = refl
drained-append (v ∷ vs) ws =
    rw (drained-append vs ws, append_assoc (pipe_serialize_value v) (drained vs) (drained ws))

drained_one : (v : Value) → drained (v ∷ []) ≡ pipe_serialize_value v
drained_one v = append-nil (pipe_serialize_value v)

module _ (accepts : ℕ → ℕ → ℕ) (room : ℕ) (ample : HasRoom accepts room) where
  write_all :
      (pipe bytes : List ℕ)
      → length pipe + length bytes ≤ room
      → pipe_write accepts pipe bytes ≡ (pipe ++ bytes, true)
  unfolding pipe_write
  write_all pipe bytes h =
      let e =
        le→leb (length bytes) (accepts (length pipe) (length bytes))
          (ample (length pipe) (length bytes) h) in
      rw (pipe_write, e) refl

  drain_all :
      (pipe : List ℕ) (vs : List Value)
      → length pipe + length (drained vs) ≤ room
      → drain accepts pipe vs ≡ pipe ++ drained vs
  unfolding drain
  drain_all pipe [] h = sym (append-nil pipe)
  drain_all pipe (v ∷ vs) h =
      let bytes = pipe_serialize_value v in
      let e = length-append bytes (drained vs) in
      let f = length-append pipe bytes in
      rw (write_all pipe bytes (omega arith))
        (drain_all (pipe ++ bytes) vs (omega arith) ∙ append_assoc pipe bytes (drained vs))

  enable-Pipes :
      (q : Queue) (vs : List Value)
      → Holds q vs
      → length (drained vs) ≤ room
      → Pipes (enable_pipes accepts q) vs
  unfolding enable_pipes
  enable-Pipes q vs h g =
      rw (enable_pipes, h.in_memory, h.contents)
        (record { on_pipe = refl; bytes = drain_all [] vs (omega arith) })

  send-Pipes :
      (q : Queue) (vs : List Value) (v : Value)
      → Pipes q vs
      → length (drained (vs ++ (v ∷ []))) ≤ room
      → Pipes ((reg_ipc_send accepts (some q) v).0) (vs ++ (v ∷ []))
  unfolding reg_ipc_send reg_ipc_init_queue
  send-Pipes q vs v h g =
      let bytes = pipe_serialize_value v in
      let e : drained (vs ++ (v ∷ [])) ≡ drained vs ++ bytes =
        drained-append vs (v ∷ []) ∙ ap (λ x. drained vs ++ x) (drained_one v) in
      let n = length-append (drained vs) bytes in
      let k : length (drained vs) + length bytes ≤ room =
        subst (λ m. m ≤ room) (ap length e ∙ n) g in
      let y : length q.pipe + length bytes ≤ room =
        subst (λ p. length p + length bytes ≤ room) (sym h.bytes) k in
      rw (h.on_pipe, write_all q.pipe bytes y)
        (record { on_pipe = refl; bytes = ap (λ p. p ++ bytes) h.bytes ∙ sym e })

  send_all-Pipes :
      (q : Queue) (us vs : List Value)
      → Pipes q us
      → length (drained (us ++ vs)) ≤ room
      → Pipes (send_all accepts q vs) (us ++ vs)
  unfolding send_all
  send_all-Pipes q us [] h g = rw (append-nil us) h
  send_all-Pipes q us (v ∷ vs) h g =
      let e : (us ++ (v ∷ [])) ++ vs ≡ us ++ (v ∷ vs) = append_assoc us (v ∷ []) vs in
      let k : length (drained ((us ++ (v ∷ [])) ++ vs)) ≤ room =
        subst (λ x. length (drained x) ≤ room) (sym e) g in
      let n =
        ap length (drained-append (us ++ (v ∷ [])) vs)
        ∙ length-append (drained (us ++ (v ∷ []))) (drained vs) in
      subst (Pipes (send_all accepts ((reg_ipc_send accepts (some q) v).0) vs)) e (
        send_all-Pipes ((reg_ipc_send accepts (some q) v).0) (us ++ (v ∷ [])) vs
          (send-Pipes q us v h (omega arith)) k)

module _ (readable : List ℕ → Bool) (fuel : ℕ)
    (ready : (b : ℕ) (bs : List ℕ) → readable (b ∷ bs) ≡ true) where
  serialized_ready : (v : Value) (rest : List ℕ) → readable (pipe_serialize_value v ++ rest) ≡ true
  unfolding pipe_serialize_value header
  serialized_ready nil rest = ready _ _
  serialized_ready (int n) rest = ready _ _
  serialized_ready (float f) rest = ready _ _
  serialized_ready (str s) rest = ready _ _
  serialized_ready (arr xs) rest = ready _ _
  serialized_ready (fn i) rest = ready _ _
  serialized_ready (err c m) rest = ready _ _
  serialized_ready (bool b) rest = ready _ _
  serialized_ready (ref p) rest = ready _ _
  serialized_ready (ptr p) rest = ready _ _
  serialized_ready null_str rest = ready _ _
  serialized_ready null_ref rest = ready _ _
  serialized_ready null_ptr rest = ready _ _

  recv-Pipes :
      (q : Queue) (v : Value) (vs : List Value)
      → Carried fuel v
      → Pipes q (v ∷ vs)
      → Pipes ((reg_ipc_recv readable fuel q).0) vs
        × ((reg_ipc_recv readable fuel q).1 ≡ message (received v))
  unfolding reg_ipc_recv recv_pipe
  recv-Pipes q v vs c h =
      let e = pipe_deserialize_value-pipe_serialize_value fuel v (drained vs) (c.0) (c.1) in
      let d : q.pipe ≡ pipe_serialize_value v ++ drained vs = h.bytes in
      rw (reg_ipc_recv, h.on_pipe, recv_pipe, d, serialized_ready v (drained vs), e)
        (record { on_pipe = h.on_pipe; bytes = refl }, accepted-received v)

  recv_each :
      (q : Queue) (vs : List Value)
      → All (Carried fuel) vs
      → Pipes q vs
      → recv_n readable fuel (length vs) q ≡ map (λ v. message (received v)) vs
  unfolding recv_n
  recv_each q [] c h = refl
  recv_each q (v ∷ vs) c h =
      let (k, e) = recv-Pipes q v vs (c.0) h in
      rw (e, recv_each ((reg_ipc_recv readable fuel q).0) vs (c.1) k)

  -- Messages that a queue in memory holds when it is moved to a pipe, and those that are sent to it after, are
  -- received in that order, each as the value that `received` says, where `poll` reports a pipe that holds a byte,
  -- and where the pipe has room for the bytes of all these messages.
  pub recv_n-enable_pipes :
      (accepts : ℕ → ℕ → ℕ) (room : ℕ) (q : Queue) (us vs : List Value)
      → HasRoom accepts room
      → length (drained (us ++ vs)) ≤ room
      → Holds q us
      → All (Carried fuel) us
      → All (Carried fuel) vs
      → recv_n readable fuel (length us + length vs) (send_all accepts (enable_pipes accepts q) vs)
        ≡ map (λ v. message (received v)) (us ++ vs)
  recv_n-enable_pipes accepts room q us vs ample g h c d =
      let n = ap length (drained-append us vs) ∙ length-append (drained us) (drained vs) in
      let moved = enable-Pipes accepts room ample q us h (omega arith) in
      subst
        (λ n.
          recv_n readable fuel n (send_all accepts (enable_pipes accepts q) vs)
          ≡ map (λ v. message (received v)) (us ++ vs))
        (length-append us vs)
        (recv_each (send_all accepts (enable_pipes accepts q) vs) (us ++ vs)
          (All-append (Carried fuel) us vs c d)
          (send_all-Pipes accepts room ample (enable_pipes accepts q) us vs moved g))
