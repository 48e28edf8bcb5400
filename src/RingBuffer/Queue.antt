-- ===== src/RingBuffer/Queue.antt =====
-- Any sequence of reads and writes of the two roles against a bounded queue of bytes.
use tensorpipe.Prelude.{
  ℕ, ◌+◌, ◌^◌, ◌≡◌, refl, ap, ◌∙◌, inl, inr, List, [], ◌∷◌, ◌++◌, arith, leb, if◌then◌else◌, take,
  drop, length, Bool-cases, leb→le,
}
use tensorpipe.RingBuffer.{RingBuffer, new_role, Status, returned, failed, enodata, read, write}
use tensorpipe.RingBuffer.Fifo.{queue_ring, IsQueue, contents, write-full, read-short}
use tensorpipe.RingBuffer.Refines.{write-append, read-take}

-- The producer writes these bytes, or the consumer reads so many.
pub data QueueOp : Type 0 where
  put : List ℕ → QueueOp
  get : ℕ → QueueOp

abbrev Reply : Type 0
Reply = Status × List ℕ

-- On the ring buffer, by roles that are in no transaction.
unfoldable pub ring_step : RingBuffer → QueueOp → Reply × RingBuffer
ring_step rb (put buffer) =
    let (status, rb', _) = write buffer (length buffer) (rb, new_role 1) in ((status, []), rb')
ring_step rb (get size) = let (reply, rb', _) = read size (rb, new_role 0) in (reply, rb')

-- On a list of at most `cap` bytes.
unfoldable pub queue_step : ℕ → List ℕ → QueueOp → Reply × List ℕ
queue_step cap xs (put buffer) =
    if leb (length xs + length buffer) cap
    then ((returned (length buffer), []), xs ++ buffer)
    else ((failed enodata, []), xs)
queue_step cap xs (get size) =
    if leb size (length xs)
    then ((returned size, take size xs), drop size xs)
    else ((failed enodata, []), xs)

unfoldable pub ring_replies : RingBuffer → List QueueOp → List Reply
ring_replies rb [] = []
ring_replies rb (op ∷ ops) = let (reply, rb') = ring_step rb op in reply ∷ ring_replies rb' ops

unfoldable pub queue_replies : ℕ → List ℕ → List QueueOp → List Reply
queue_replies cap xs [] = []
queue_replies cap xs (op ∷ ops) =
    let (reply, xs') = queue_step cap xs op in reply ∷ queue_replies cap xs' ops

-- A ring buffer that stands for a list.
record Represents (bits : ℕ) (rb : RingBuffer) (xs : List ℕ) : Type 0 where
  consumed : ℕ
  produced : ℕ
  bytes : List ℕ
  is_queue : IsQueue bits consumed produced bytes
  is_ring : rb ≡ queue_ring bits consumed produced bytes
  holds : contents bits consumed produced bytes ≡ xs

step-Represents :
    (bits c p : ℕ) (bytes : List ℕ) (op : QueueOp)
    → IsQueue bits c p bytes
    → ((ring_step (queue_ring bits c p bytes) op).0
        ≡ (queue_step (2 ^ bits) (contents bits c p bytes) op).0)
      × Represents bits
          (ring_step (queue_ring bits c p bytes) op).1
          (queue_step (2 ^ bits) (contents bits c p bytes) op).1
unfolding ring_step queue_step
step-Represents bits c p bytes (put buffer) q =
    let xs = contents bits c p bytes in
    elim (Bool-cases (leb (length xs + length buffer) (2 ^ bits))) [
      | inl t ↦
          let (bytes', e, q', h) =
            write-append bits c p bytes q buffer
              (leb→le (length xs + length buffer) (2 ^ bits) t) in
          rw (t, e)
            ((
              refl,
              record {
                consumed = c;
                produced = _;
                bytes = bytes';
                is_queue = q';
                is_ring = refl;
                holds = h;
              },
            ))
      | inr t ↦
          rw (t, write-full bits c p bytes q buffer (ground (arith, t)))
            ((
              refl,
              record {
                consumed = c;
                produced = p;
                bytes = bytes;
                is_queue = q;
                is_ring = refl;
                holds = refl;
              },
            ))
    ]
step-Represents bits c p bytes (get size) q =
    let xs = contents bits c p bytes in
    elim (Bool-cases (leb size (length xs))) [
      | inl t ↦
          let (e, q', h) = read-take bits c p bytes q size (leb→le size (length xs) t) in
          rw (t, e)
            ((
              refl,
              record {
                consumed = _;
                produced = p;
                bytes = bytes;
                is_queue = q';
                is_ring = refl;
                holds = h;
              },
            ))
      | inr t ↦
          rw (t, read-short bits c p bytes q size (ground (arith, t)))
            ((
              refl,
              record {
                consumed = c;
                produced = p;
                bytes = bytes;
                is_queue = q;
                is_ring = refl;
                holds = refl;
              },
            ))
    ]

-- The replies to any sequence of reads and writes on a ring of 2 ^ bits bytes, whose markers are at
-- most a lap apart and may have wrapped around, are those of a queue of at most 2 ^ bits bytes that
-- starts with the bytes that are waiting.
pub ring_replies-queue :
    (bits c p : ℕ) (bytes : List ℕ) (ops : List QueueOp)
    → IsQueue bits c p bytes
    → ring_replies (queue_ring bits c p bytes) ops
      ≡ queue_replies (2 ^ bits) (contents bits c p bytes) ops
unfolding ring_replies queue_replies
ring_replies-queue bits c p bytes [] q = refl
ring_replies-queue bits c p bytes (op ∷ ops) q =
    let (e, r) = step-Represents bits c p bytes op q in
    let later = ring_replies-queue bits (r.consumed) (r.produced) (r.bytes) ops r.is_queue in
    ap (λ (y : Reply). y ∷ ring_replies (ring_step (queue_ring bits c p bytes) op).1 ops) e
    ∙ ap (λ (ys : List Reply). (queue_step (2 ^ bits) (contents bits c p bytes) op).0 ∷ ys)
        (ap (λ (rb : RingBuffer). ring_replies rb ops) r.is_ring
          ∙ later
          ∙ ap (λ (xs : List ℕ). queue_replies (2 ^ bits) xs ops) r.holds)
