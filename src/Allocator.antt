-- ===== src/Allocator.antt =====
-- common/allocator.h and common/allocator.cc: chunks of one buffer, handed out in the order of the
-- requests. A callback is known by its request's number, and does not call the allocator back; the
-- pointers are offsets from `data_`.
pub mod Chunks
use tensorpipe.Prelude.{
  ℕ, zero, suc, ◌+◌, ◌*◌, ◌/◌, ◌&&◌, leb, ◌≡◌, refl, ap, ◌∙◌, ◌⊎◌, inl, inr, Bool, true, false,
  Option, none, some, List, [], ◌∷◌, ◌++◌, arith, get_or, set, length, length-set, replicate,
  if◌then◌else◌, Bool-cases,
}
use tensorpipe.Prelude.Word.{sub64, u64_mod}

pub data AllocCall : Type 0 where
  given : ℕ → ℕ → AllocCall
  refused : ℕ → AllocCall

-- `calls` is the history of the callbacks, latest first. `alloc_checked` tells whether the TP_DCHECK
-- of `alloc` has held.
pub record Allocator : Type 0 where
  pub chunk_size : ℕ
  pub chunk_available : List Bool
  pub allocated_chunks : ℕ
  pub pending_allocations : List ℕ
  pub closed : Bool
  pub calls : List AllocCall
  pub alloc_checked : Bool

-- The constructor
unfoldable pub new_allocator : ℕ → ℕ → Allocator
new_allocator num_chunks chunk_size = record {
  chunk_size = chunk_size;
  chunk_available = replicate num_chunks true;
  allocated_chunks = 0;
  pending_allocations = [];
  closed = false;
  calls = [];
  alloc_checked = true;
}

-- The loop of `getAvailableChunk`: the first chunk that is available, from a list on.
unfoldable pub first_available : List Bool → Option ℕ
first_available [] = none
first_available (true ∷ bs) = some 0
first_available (false ∷ bs) = elim (first_available bs) [ none ↦ none | some i ↦ some (suc i) ]

-- `getAvailableChunk`, with the chunk's pointer
unfoldable pub get_available_chunk : Allocator → Option (ℕ × Allocator)
get_available_chunk a = elim (first_available a.chunk_available) [
  | none ↦ none
  | some i ↦ some (
    i * a.chunk_size,
    record a {
      chunk_available = set a.chunk_available i false;
      allocated_chunks = a.allocated_chunks + 1;
    },
  )
]

-- The loop of `processAllocations`, on the requests that are pending
unfoldable pub process_from : List ℕ → Allocator → Allocator
process_from [] a = record a { pending_allocations = [] }
process_from (request ∷ rest) a = elim a.closed [
  | true ↦ process_from rest (record a { calls = refused request ∷ a.calls })
  | false ↦ elim (get_available_chunk a) [
    | none ↦ record a { pending_allocations = request ∷ rest }
    | some (ptr, a') ↦ process_from rest (record a' { calls = given request ptr ∷ a'.calls })
  ]
]

-- `processAllocations`
unfoldable pub process_allocations : Allocator → Allocator
process_allocations a = process_from a.pending_allocations a

-- `alloc`
unfoldable pub alloc : ℕ → ℕ → Allocator → Allocator
alloc size request a = process_allocations (record a {
  pending_allocations = a.pending_allocations ++ request ∷ [];
  alloc_checked = a.alloc_checked && leb size a.chunk_size;
})

-- `close`
unfoldable pub close : Allocator → Allocator
close a = if a.closed then a else process_allocations (record a { closed = true })

-- `releaseChunk`
unfoldable pub release_chunk : ℕ → Allocator → Allocator
release_chunk ptr a = process_allocations (record a {
  chunk_available = set a.chunk_available (ptr / a.chunk_size) true;
  allocated_chunks = sub64 a.allocated_chunks 1;
})
