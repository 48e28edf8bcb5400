-- ===== src/RingBuffer.antt =====
-- The ring buffer of tensorpipe/common/ringbuffer.h and its users' roles of
pub mod Areas
pub mod Grants
pub mod Copies
pub mod Fifo
pub mod Refines
pub mod Queue
-- tensorpipe/common/ringbuffer_role.h; `isPow2` and `nextPow2` of tensorpipe/common/system.h.
-- Memory orders are left out: an operation of one role is one step of the shared state.
use Prim.Native.Nat.{bit_and, bit_or}
use tensorpipe.Prelude.{
  ℕ, ◌+◌, ◌-◌, ◌*◌, ◌/◌, ◌%◌, ◌^◌, min, Bool, true, false, not, ◌&&◌, ◌||◌, List, [], ◌∷◌, ◌++◌,
  ltb, leb, ◌==◌, if◌then◌else◌, get_or, set, take, drop, replicate, length,
}
use tensorpipe.Prelude.Word.{u32_mod, add64, sub64}

-- `isPow2`, for a `uint64_t`
unfoldable pub is_pow2 : ℕ → Bool
is_pow2 n = ltb 0 n && bit_and (sub64 n 1) n == 0

-- `n |= n >> k`
abbrev pub smear : ℕ → ℕ → ℕ
smear k n = bit_or n (n / 2 ^ k)

-- `nextPow2`, for a `uint64_t`
unfoldable pub next_pow2 : ℕ → ℕ
next_pow2 n = add64 (smear 32 (smear 16 (smear 8 (smear 4 (smear 2 (smear 1 (sub64 n 1))))))) 1

-- `RingBufferHeader`: `in_tx` and `markers` have an item for each role.
pub record Header : Type 0 where
  pub data_pool_byte_size : ℕ
  pub data_mod_mask : ℕ
  pub in_tx : List Bool
  pub markers : List ℕ

-- The constructor, and whether its TP_DCHECKs hold
unfoldable pub new_header : ℕ → ℕ → Header × Bool
new_header num_roles min_data_byte_size =
    let size = next_pow2 min_data_byte_size in
    (
      record {
        data_pool_byte_size = size;
        data_mod_mask = sub64 size 1;
        in_tx = replicate num_roles false;
        markers = replicate num_roles 0;
      },
      leb 2 size && (is_pow2 size && leb size (2 ^ 31 - 1)),
    )

-- `beginTransaction`: the value of the flag before
unfoldable pub begin_transaction : ℕ → Header → Bool × Header
begin_transaction role h = (get_or h.in_tx role false, record h { in_tx = set h.in_tx role true })

-- `endTransaction`
unfoldable pub end_transaction : ℕ → Header → Header
end_transaction role h = record h { in_tx = set h.in_tx role false }

-- `readMarker`
unfoldable pub read_marker : ℕ → Header → ℕ
read_marker role h = get_or h.markers role 0

-- `incMarker`
unfoldable pub inc_marker : ℕ → ℕ → Header → Header
inc_marker role inc h = record h {
  markers = set h.markers role (add64 (get_or h.markers role 0) inc);
}

-- `RingBuffer`: the header and the bytes, which the roles share
pub record RingBuffer : Type 0 where
  pub header : Header
  pub bytes : List ℕ

-- `RingBufferRole`: its own fields, and the index that is a parameter of the template. `tx_checked`
-- tells whether the TP_DCHECKs of `startTx` and of `accessContiguousInTx` have held.
pub record Role : Type 0 where
  pub role_idx : ℕ
  pub tx_size : ℕ
  pub in_tx : Bool
  pub tx_checked : Bool

abbrev pub new_role : ℕ → Role
new_role idx = record { role_idx = idx; tx_size = 0; in_tx = false; tx_checked = true }

pub data Errno : Type 0 where
  ebusy eagain einval enodata : Errno

-- An `ssize_t`: negative for an error.
pub data Status : Type 0 where
  failed : Errno → Status
  returned : ℕ → Status

-- `startTx`
unfoldable pub start_tx : RingBuffer × Role → Status × RingBuffer × Role
start_tx (rb, r) =
    if r.in_tx
    then (failed ebusy, rb, r)
    else (let (taken, h) = begin_transaction r.role_idx rb.header in
        if taken then (failed eagain, record rb { header = h }, r) else (
          returned 0,
          record rb { header = h },
          record r { in_tx = true; tx_checked = r.tx_checked && r.tx_size == 0 },
        ))

-- `commitTx`
unfoldable pub commit_tx : RingBuffer × Role → Status × RingBuffer × Role
commit_tx (rb, r) = if not r.in_tx then (failed einval, rb, r) else (
  returned 0,
  record rb { header = end_transaction r.role_idx (inc_marker r.role_idx r.tx_size rb.header) },
  record r { tx_size = 0; in_tx = false },
)

-- `cancelTx`
unfoldable pub cancel_tx : RingBuffer × Role → Status × RingBuffer × Role
cancel_tx (rb, r) = if not r.in_tx then (failed einval, rb, r) else (
  returned 0,
  record rb { header = end_transaction r.role_idx rb.header },
  record r { tx_size = 0; in_tx = false },
)

-- `RingBufferRole::Buffer`; the pointer is an offset from `data_`.
pub record Area : Type 0 where
  pub ptr : ℕ
  pub len : ℕ

-- An error, or the items of the array that are valid.
pub data Access : Type 0 where
  no_access : Errno → Access
  areas : List Area → Access

-- The end of what a role may access: the marker of the next role, or of the first one a lap ahead.
unfoldable pub head_of : ℕ → Header → ℕ
unfolding read_marker
head_of idx h =
    let n = length h.markers in
    add64 (read_marker ((idx + 1) % n) h) (if idx + 1 == n then h.data_pool_byte_size else 0)

-- The bytes that a role may still access in its transaction
unfoldable pub available : Header → Role → ℕ
unfolding head_of
available h r = sub64 (sub64 (head_of r.role_idx h) (read_marker r.role_idx h)) r.tx_size

-- The check of the markers in `accessContiguousInTx`. (The other one is of a `size_t`, and says that
-- it is not negative.)
unfoldable pub check_markers : Header → Role → Role
check_markers h r = record r {
  tx_checked =
      r.tx_checked
      && leb (sub64 (head_of r.role_idx h) (read_marker r.role_idx h)) h.data_pool_byte_size;
}

-- The end of `accessContiguousInTx`, when there is something to access
unfoldable pub cut_areas : Header → ℕ → ℕ → List Area
cut_areas h start size =
    let end = bit_and (add64 start size) h.data_mod_mask in
    if leb end start && ltb 0 end
    then record { ptr = start; len = h.data_pool_byte_size - start }
      ∷ record { ptr = 0; len = end }
      ∷ []
    else record { ptr = start; len = size } ∷ []

-- `accessContiguousInTx`
unfoldable pub access_contiguous_in_tx : Bool → ℕ → Header → Role → Access × Role
access_contiguous_in_tx allow_partial size h r =
    let avail = available h r in
    let granted = min size avail in
    let start = bit_and (add64 (read_marker r.role_idx h) r.tx_size) h.data_mod_mask in
    if not r.in_tx
    then (no_access einval, r)
    else (if size == 0
        then (areas [], r)
        else (if not allow_partial && ltb avail size
            then (no_access enodata, check_markers h r)
            else (if avail == 0 then (areas [], check_markers h r) else (
              areas (cut_areas h start granted),
              record (check_markers h r) { tx_size = (r.tx_size + granted) % u32_mod },
            ))))

-- `incMarkerInTx`: its `ret` is the number of areas.
unfoldable pub inc_marker_in_tx : ℕ → Header → Role → Status × Role
inc_marker_in_tx size h r =
    let (access, r') = access_contiguous_in_tx false size h r in
    (elim access [ no_access e ↦ failed e | areas parts ↦ returned (length parts) ], r')

-- `memcpy` out of the pool and into it
abbrev pub copy_out : ℕ → ℕ → List ℕ → List ℕ
copy_out ptr len pool = take len (drop ptr pool)

abbrev pub copy_in : ℕ → List ℕ → List ℕ → List ℕ
copy_in ptr [] pool = pool
copy_in ptr (b ∷ bs) pool = copy_in (ptr + 1) bs (set pool ptr b)

abbrev pub read_areas : List Area → List ℕ → List ℕ
read_areas [] pool = []
read_areas (a ∷ parts) pool = copy_out a.ptr a.len pool ++ read_areas parts pool

abbrev pub write_areas : List Area → List ℕ → List ℕ → List ℕ
write_areas [] buffer pool = pool
write_areas (a ∷ parts) buffer pool =
    write_areas parts (drop a.len buffer) (copy_in a.ptr (take a.len buffer) pool)

abbrev pub total_len : List Area → ℕ
total_len [] = 0
total_len (a ∷ parts) = a.len + total_len parts

-- The end of `readInTx`, by what was granted
abbrev pub read_granted : RingBuffer → Access × Role → Status × List ℕ × Role
read_granted rb (no_access e, r) = (failed e, [], r)
read_granted rb (areas parts, r) = (returned (total_len parts), read_areas parts rb.bytes, r)

-- `readInTx`, and the bytes it puts in the caller's buffer
unfoldable pub read_in_tx : Bool → ℕ → RingBuffer → Role → Status × List ℕ × Role
read_in_tx allow_partial size rb r =
    read_granted rb (access_contiguous_in_tx allow_partial size rb.header r)

-- The end of `writeInTx`, by what was granted
abbrev pub write_granted : List ℕ → RingBuffer → Access × Role → Status × RingBuffer × Role
write_granted buffer rb (no_access e, r) = (failed e, rb, r)
write_granted buffer rb (areas parts, r) =
    (returned (total_len parts), record rb { bytes = write_areas parts buffer rb.bytes }, r)

-- `writeInTx`
unfoldable pub write_in_tx : Bool → List ℕ → ℕ → RingBuffer → Role → Status × RingBuffer × Role
write_in_tx allow_partial buffer size rb r =
    write_granted buffer rb (access_contiguous_in_tx allow_partial size rb.header r)

-- The end of `read`, once the bytes are copied or not
unfoldable pub finish_read :
    ℕ → RingBuffer → Status × List ℕ × Role → (Status × List ℕ) × RingBuffer × Role
finish_read size rb (failed e, bytes, r) =
    let (_, rb', r') = cancel_tx (rb, r) in ((failed e, []), rb', r')
finish_read size rb (returned n, bytes, r) =
    let (_, rb', r') = commit_tx (rb, r) in ((returned size, bytes), rb', r')

-- `read` from the result of `startTx`
unfoldable pub read_started : ℕ → Status × RingBuffer × Role → (Status × List ℕ) × RingBuffer × Role
read_started size (failed e, rb, r) = ((failed e, []), rb, r)
read_started size (returned n, rb, r) = finish_read size rb (read_in_tx false size rb r)

-- `read`, and the bytes it puts in the caller's buffer
unfoldable pub read : ℕ → RingBuffer × Role → (Status × List ℕ) × RingBuffer × Role
read size x = read_started size (start_tx x)

-- The end of `write`, once the bytes are copied or not
unfoldable pub finish_write : ℕ → Status × RingBuffer × Role → Status × RingBuffer × Role
finish_write size (failed e, rb, r) = let (_, rb', r') = cancel_tx (rb, r) in (failed e, rb', r')
finish_write size (returned n, rb, r) =
    let (_, rb', r') = commit_tx (rb, r) in (returned size, rb', r')

-- `write` from the result of `startTx`
unfoldable pub write_started : List ℕ → ℕ → Status × RingBuffer × Role → Status × RingBuffer × Role
write_started buffer size (failed e, rb, r) = (failed e, rb, r)
write_started buffer size (returned n, rb, r) =
    finish_write size (write_in_tx false buffer size rb r)

-- `write`
unfoldable pub write : List ℕ → ℕ → RingBuffer × Role → Status × RingBuffer × Role
write buffer size x = write_started buffer size (start_tx x)
