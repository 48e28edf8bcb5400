-- ===== src/Pipe/Reply.antt =====
-- core/pipe_impl.cc: the reply to a descriptor, from the reader's side to the writer's.
use tensorpipe.Prelude.{
  ◌≡◌, refl, ap, ◌∙◌, inl, inr, Bool, true, Option, none, some, List, [], ◌∷◌, map, length, arith,
  Option-cases,
}
use tensorpipe.Pipe.Types.{
  Device, Buffer, TensorMessage, Descriptor, ReadOperation, WriteOperation, TensorBeingSent,
}
use tensorpipe.Pipe.Actions.{
  describe_tensor, make_descriptor_for_message, missing_devices, make_descriptor_reply_for_message,
  parse_reply, parse_descriptor_reply_of_message,
}
use tensorpipe.Pipe.Handlers.{tensor_being_sent}

abbrev value_or {ℓ} : {A : Type ℓ} → Option A → A → A
value_or none d = d
value_or (some a) d = a

-- Each tensor with the device that it must go to: its own choice, or the allocation's.
unfoldable pub resolve : List TensorMessage → List Buffer → List TensorBeingSent
resolve [] bs = []
resolve (t ∷ ts) [] = []
resolve (t ∷ ts) (b ∷ bs) =
    record {
      source_device = t.buffer.device;
      target_device = some (value_or t.target_device b.device);
    }
    ∷ resolve ts bs

parse_reply-known :
    (t : TensorMessage) (ts : List TensorMessage) (x : TensorBeingSent) (xs : List TensorBeingSent)
    (d : Device) (ds : List Device)
    → t.target_device ≡ some d
    → parse_reply (t ∷ ts) (x ∷ xs) ds ≡ (x ∷ (parse_reply ts xs ds).0, (parse_reply ts xs ds).1)
unfolding parse_reply
parse_reply-known t ts x xs d [] e = ground (arith, e)
parse_reply-known t ts x xs d (c ∷ ds) e = ground (arith, e)

parse_reply-missing :
    (ts : List TensorMessage) (bs : List Buffer)
    → length bs ≡ length ts
    → parse_reply ts (map tensor_being_sent ts) (missing_devices (map describe_tensor ts) bs)
      ≡ (resolve ts bs, true)
unfolding parse_reply missing_devices describe_tensor resolve
parse_reply-missing [] bs h = refl
parse_reply-missing (t ∷ ts) [] h = absurd (omega arith)
parse_reply-missing (t ∷ ts) (b ∷ bs) h =
    let later = parse_reply-missing ts bs (omega arith) in
    elim (Option-cases t.target_device) [
      | inl e ↦ ground (arith, e, later)
      | inr (d, e) ↦ ground (
        arith,
        e,
        later,
        parse_reply-known t ts (tensor_being_sent t) (map tensor_being_sent ts) d
            (missing_devices (map describe_tensor ts) bs) e,
      )
    ]

-- The reply that the reader makes from the descriptor of a message, once it has a buffer for each
-- tensor, passes the writer's check and gives each tensor the device that it must be sent to: the
-- one that the writer chose, or else that of the reader's buffer.
pub parse_descriptor_reply-make :
    (w : WriteOperation) (r : ReadOperation)
    → w.tensors ≡ map tensor_being_sent w.message.tensors
    → r.descriptor ≡ make_descriptor_for_message w
    → length r.allocation.tensors ≡ length w.message.tensors
    → parse_descriptor_reply_of_message w (make_descriptor_reply_for_message r)
      ≡ (record w { tensors = resolve w.message.tensors r.allocation.tensors }, true)
unfolding parse_descriptor_reply_of_message make_descriptor_reply_for_message
    make_descriptor_for_message
parse_descriptor_reply-make w r e f h =
    let reply : List Device = missing_devices r.descriptor.tensors r.allocation.tensors in
    ap (λ (x : List TensorBeingSent × Bool). (record w { tensors = x.0 }, x.1))
      (ap (λ (xs : List TensorBeingSent). parse_reply w.message.tensors xs reply) e
        ∙ ap
            (λ (d : Descriptor).
              parse_reply w.message.tensors (map tensor_being_sent w.message.tensors)
                (missing_devices d.tensors r.allocation.tensors))
            f
        ∙ parse_reply-missing w.message.tensors r.allocation.tensors h)
