-- ===== src/Allocator/Chunks.antt =====
-- Every chunk is available or allocated, and no request waits while a chunk is available.
use tensorpipe.Prelude.{
  ◌*◌, ◌/◌, ◌&&◌, leb, ◌∙◌, ℕ, zero, suc, ◌+◌, ◌≤◌, ◌<◌, ◌≡◌, refl, ap, sym, subst, ◌⊎◌, inl, inr,
  Bool, true, false, none, some, List, [], ◌∷◌, arith, get_or, set, length, length-set, Bool-cases,
  Option-cases,
}
use tensorpipe.Prelude.Word.{u64_mod}
use tensorpipe.Allocator.{
  AllocCall, close, Allocator, given, refused, first_available, get_available_chunk, process_from,
  process_allocations, alloc, release_chunk,
}

unfoldable pub count_available : List Bool → ℕ
count_available [] = 0
count_available (true ∷ bs) = suc (count_available bs)
count_available (false ∷ bs) = count_available bs

-- The chunks are all accounted for.
pub record IsCounted (a : Allocator) : Type 0 where
  pub counts : a.allocated_chunks + count_available a.chunk_available ≡ length a.chunk_available
  pub word : length a.chunk_available < u64_mod

-- Nothing waits in vain.
pub record IsSettled (a : Allocator) : Type 0 where
  pub counted : IsCounted a
  pub busy : (a.pending_allocations ≡ []) ⊎ (first_available a.chunk_available ≡ none)

count-first :
    (bs : List Bool) (i : ℕ)
    → first_available bs ≡ some i
    → suc (count_available (set bs i false)) ≡ count_available bs
unfolding first_available count_available
count-first [] i e = ground arith
count-first (true ∷ bs) i e = ground arith
count-first (false ∷ bs) i e = elim (Option-cases (first_available bs)) [
  | inl n ↦ ground (arith, n, e)
  | inr (j, s) ↦ ground (arith, s, e, count-first bs j s)
]

count-release :
    (bs : List Bool) (i : ℕ)
    → get_or bs i true ≡ false
    → count_available (set bs i true) ≡ suc (count_available bs)
unfolding count_available
count-release [] i e = ground arith
count-release (true ∷ bs) zero e = ground arith
count-release (false ∷ bs) zero e = refl
count-release (true ∷ bs) (suc i) e = ap suc (count-release bs i e)
count-release (false ∷ bs) (suc i) e = count-release bs i e

count_available-le : (bs : List Bool) → count_available bs ≤ length bs
unfolding count_available
count_available-le [] = omega arith
count_available-le (true ∷ bs) = omega (arith, count_available-le bs)
count_available-le (false ∷ bs) = omega (arith, count_available-le bs)

got :
    (a : Allocator) (i : ℕ)
    → first_available a.chunk_available ≡ some i
    → get_available_chunk a
      ≡ some (
        i * a.chunk_size,
        record a {
          chunk_available = set a.chunk_available i false;
          allocated_chunks = a.allocated_chunks + 1;
        },
      )
unfolding get_available_chunk
got a i e = rw (get_available_chunk, e) refl

none_left :
    (a : Allocator) → first_available a.chunk_available ≡ none → get_available_chunk a ≡ none
unfolding get_available_chunk
none_left a e = ground (arith, e)

process_from-closed :
    (r : ℕ) (rest : List ℕ) (a : Allocator)
    → a.closed ≡ true
    → process_from (r ∷ rest) a ≡ process_from rest (record a { calls = refused r ∷ a.calls })
unfolding process_from
process_from-closed r rest a c = ground (arith, c)

process_from-full :
    (r : ℕ) (rest : List ℕ) (a : Allocator)
    → a.closed ≡ false
    → get_available_chunk a ≡ none
    → process_from (r ∷ rest) a ≡ record a { pending_allocations = r ∷ rest }
unfolding process_from
process_from-full r rest a c e = ground (arith, c, e)

process_from-given :
    (r : ℕ) (rest : List ℕ) (a b : Allocator) (ptr : ℕ)
    → a.closed ≡ false
    → get_available_chunk a ≡ some (ptr, b)
    → process_from (r ∷ rest) a ≡ process_from rest (record b { calls = given r ptr ∷ b.calls })
unfolding process_from
process_from-given r rest a b ptr c e = ground (arith, c, e)

-- One request after another.
process_from-IsSettled :
    (requests : List ℕ) (a : Allocator) → IsCounted a → IsSettled (process_from requests a)
unfolding process_from
process_from-IsSettled [] a h = record {
  counted = record { counts = h.counts; word = h.word };
  busy = inl refl;
}
process_from-IsSettled (r ∷ rest) a h = elim (Bool-cases a.closed) [
  | inl c ↦
      let b : Allocator = record a { calls = refused r ∷ a.calls } in
      subst IsSettled (sym (process_from-closed r rest a c))
        (process_from-IsSettled rest b (record { counts = h.counts; word = h.word }))
  | inr c ↦ elim (Option-cases (first_available a.chunk_available)) [
    | inl n ↦
        subst IsSettled (sym (process_from-full r rest a c (none_left a n)))
          (record { counted = record { counts = h.counts; word = h.word }; busy = inr n })
    | inr (i, s) ↦
        let b : Allocator = record a {
          chunk_available = set a.chunk_available i false;
          allocated_chunks = a.allocated_chunks + 1;
          calls = given r (i * a.chunk_size) ∷ a.calls;
        } in
        let fewer = count-first a.chunk_available i s in
        let same = length-set a.chunk_available i false in
        let cs = h.counts in
        let w = h.word in
        subst IsSettled (sym (process_from-given r rest a _ (i * a.chunk_size) c (got a i s)))
          (process_from-IsSettled rest b (record { counts = omega arith; word = omega arith }))
  ]
]

-- Where every chunk is allocated or available and no request waits while a chunk is available: `alloc`
-- keeps the chunks accounted for and leaves no request that waits while a chunk is
-- available.
pub alloc-IsSettled :
    (size request : ℕ) (a : Allocator) → IsSettled a → IsSettled (alloc size request a)
unfolding alloc process_allocations
alloc-IsSettled size request a h =
    process_from-IsSettled _ _ (record { counts = h.counted.counts; word = h.counted.word })

-- Where every chunk is allocated or available and no request waits while a chunk is available:
-- `releaseChunk` of a pointer into a chunk that is allocated keeps both so.
pub release_chunk-IsSettled :
    (ptr : ℕ) (a : Allocator)
    → get_or a.chunk_available (ptr / a.chunk_size) true ≡ false
    → IsSettled a
    → IsSettled (release_chunk ptr a)
unfolding release_chunk process_allocations
release_chunk-IsSettled ptr a e h =
    let i : ℕ = ptr / a.chunk_size in
    let more = count-release a.chunk_available i e in
    let same = length-set a.chunk_available i true in
    let bound = count_available-le (set a.chunk_available i true) in
    let cs = h.counted.counts in
    let w = h.counted.word in
    process_from-IsSettled _ _ (record { counts = omega arith; word = omega arith })

-- The history after some requests are refused in order.
abbrev pub refuse_all : List ℕ → List AllocCall → List AllocCall
refuse_all [] calls = calls
refuse_all (r ∷ rest) calls = refuse_all rest (refused r ∷ calls)

process_from-refused :
    (requests : List ℕ) (a : Allocator)
    → a.closed ≡ true
    → process_from requests a
      ≡ record a { pending_allocations = []; calls = refuse_all requests a.calls }
unfolding process_from
process_from-refused [] a c = refl
process_from-refused (r ∷ rest) a c =
    process_from-closed r rest a c
    ∙ process_from-refused rest (record a { calls = refused r ∷ a.calls }) c

-- `close` of an allocator that is open refuses every request that is pending, in order, and leaves
-- none; the chunks stay as they are, and a request that comes later is refused at once.
pub close-refuses :
    (a : Allocator) (size later : ℕ)
    → a.closed ≡ false
    → (close a ≡ record a {
      closed = true;
      pending_allocations = [];
      calls = refuse_all a.pending_allocations a.calls;
    })
      × (alloc size later (close a) ≡ record (close a) {
        calls = refused later ∷ (close a).calls;
        alloc_checked = (close a).alloc_checked && leb size (close a).chunk_size;
      })
unfolding close process_allocations alloc
close-refuses a size later c =
    let b : Allocator = record a { closed = true } in
    let after : Allocator = record b {
      pending_allocations = [];
      calls = refuse_all a.pending_allocations a.calls;
    } in
    let closing : close a ≡ after = rw c (process_from-refused a.pending_allocations b refl) in
    (
      closing,
      subst
          (λ (d : Allocator). alloc size later d ≡ record d {
            calls = refused later ∷ d.calls;
            alloc_checked = d.alloc_checked && leb size d.chunk_size;
          })
          (sym closing)
          (process_from-refused (later ∷ [])
            (record after {
              pending_allocations = later ∷ [];
              alloc_checked = after.alloc_checked && leb size after.chunk_size;
            })
            refl),
    )
