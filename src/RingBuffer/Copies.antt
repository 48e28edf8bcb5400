-- ===== src/RingBuffer/Copies.antt =====
-- The copies out of the granted areas and into them.
use native.Mathlib.Nat.{mod-eq_of_lt, mod-eq-sub-mod}
use mathlib.Core.List.{append-nil}
use tensorpipe.Prelude.{
  ℕ, zero, suc, ◌+◌, ◌-◌, ◌%◌, ◌≤◌, ◌<◌, ◌≡◌, refl, ap, ◌∙◌, sym, inl, inr, List, [], ◌∷◌, ◌++◌,
  arith, ltb, ◌==◌, if◌then◌else◌, get_or, set, take, drop, length, length-set, length-take,
  length-drop, tabulate, tabulate-ext, tabulate-add, take-drop-tabulate, Bool-cases, ltb→lt,
}
use tensorpipe.RingBuffer.{Header, Area, cut_areas, copy_in, read_areas, write_areas}
use tensorpipe.RingBuffer.Areas.{IsHeader, cut_areas-one, cut_areas-two, mod_lap}

get_or-set :
    (xs : List ℕ) (p j v : ℕ)
    → p < length xs
    → get_or (set xs p v) j 0 ≡ (if j == p then v else get_or xs j 0)
get_or-set [] p j v h = absurd (omega arith)
get_or-set (x ∷ xs) zero zero v h = ground arith
get_or-set (x ∷ xs) zero (suc j) v h = ground arith
get_or-set (x ∷ xs) (suc p) zero v h = ground arith
get_or-set (x ∷ xs) (suc p) (suc j) v h = ground (arith, get_or-set xs p j v (omega arith))

pub length-copy_in : (p : ℕ) (bs xs : List ℕ) → length (copy_in p bs xs) ≡ length xs
length-copy_in p [] xs = refl
length-copy_in p (b ∷ bs) xs = length-copy_in (p + 1) bs (set xs p b) ∙ length-set xs p b

copy_in-before :
    (p j : ℕ) (bs xs : List ℕ)
    → p + length bs ≤ length xs
    → j < p
    → get_or (copy_in p bs xs) j 0 ≡ get_or xs j 0
copy_in-before p j [] xs h l = refl
copy_in-before p j (b ∷ bs) xs h l = ground (
  arith,
  copy_in-before (p + 1) j bs (set xs p b) (omega (arith, length-set xs p b)) (omega arith),
  get_or-set xs p j b (omega arith),
)

copy_in-within :
    (p d : ℕ) (bs xs : List ℕ)
    → p + length bs ≤ length xs
    → d < length bs
    → get_or (copy_in p bs xs) (p + d) 0 ≡ get_or bs d 0
copy_in-within p d [] xs h l = absurd (omega arith)
copy_in-within p zero (b ∷ bs) xs h l =
    ap (λ (t : ℕ). get_or (copy_in p (b ∷ bs) xs) t 0) {x = p + 0} {y = p} (omega arith)
    ∙ copy_in-before (p + 1) p bs (set xs p b) (omega (arith, length-set xs p b)) (omega arith)
    ∙ get_or-set xs p p b (omega arith)
    ∙ ground arith
copy_in-within p (suc d) (b ∷ bs) xs h l =
    ap (λ (t : ℕ). get_or (copy_in p (b ∷ bs) xs) t 0) {x = p + suc d} {y = p + 1 + d} (omega arith)
    ∙ copy_in-within (p + 1) d bs (set xs p b) (omega (arith, length-set xs p b)) (omega arith)

copy_in-after :
    (p j : ℕ) (bs xs : List ℕ)
    → p + length bs ≤ length xs
    → p + length bs ≤ j
    → get_or (copy_in p bs xs) j 0 ≡ get_or xs j 0
copy_in-after p j [] xs h l = refl
copy_in-after p j (b ∷ bs) xs h l = ground (
  arith,
  copy_in-after (p + 1) j bs (set xs p b) (omega (arith, length-set xs p b)) (omega arith),
  get_or-set xs p j b (omega arith),
)

get_or-take : (n i : ℕ) (xs : List ℕ) → i < n → get_or (take n xs) i 0 ≡ get_or xs i 0
get_or-take zero i xs h = absurd (omega arith)
get_or-take (suc n) i [] h = refl
get_or-take (suc n) zero (x ∷ xs) h = refl
get_or-take (suc n) (suc i) (x ∷ xs) h = get_or-take n i xs (omega arith)

get_or-drop : (n i : ℕ) (xs : List ℕ) → get_or (drop n xs) i 0 ≡ get_or xs (n + i) 0
get_or-drop zero i xs = ap (λ (t : ℕ). get_or xs t 0) {x = i} {y = 0 + i} (omega arith)
get_or-drop (suc n) i [] = refl
get_or-drop (suc n) i (x ∷ xs) =
    get_or-drop n i xs
    ∙ ap (λ (t : ℕ). get_or (x ∷ xs) t 0) {x = suc (n + i)} {y = suc n + i} (omega arith)

take-all : (xs : List ℕ) (n : ℕ) → length xs ≤ n → take n xs ≡ xs
take-all [] zero h = refl
take-all [] (suc n) h = refl
take-all (x ∷ xs) zero h = absurd (omega arith)
take-all (x ∷ xs) (suc n) h = ap (λ (ys : List ℕ). x ∷ ys) (take-all xs n (omega arith))

pub length-write_areas :
    (parts : List Area) (buffer xs : List ℕ) → length (write_areas parts buffer xs) ≡ length xs
length-write_areas [] buffer xs = refl
length-write_areas (a ∷ parts) buffer xs =
    length-write_areas parts (drop a.len buffer) (copy_in a.ptr (take a.len buffer) xs)
    ∙ length-copy_in a.ptr (take a.len buffer) xs

module _ (h : Header) (k : IsHeader h) (start size : ℕ) (l : start < h.data_pool_byte_size)
    (m : size ≤ h.data_pool_byte_size) (xs : List ℕ) (f : length xs ≡ h.data_pool_byte_size) where
  -- What a reader copies out: the `size` bytes that follow `start` around the ring.
  pub read_areas-cut_areas :
      0 < size
      → read_areas (cut_areas h start size) xs
        ≡ tabulate size (λ i. get_or xs ((start + i) % h.data_pool_byte_size) 0)
  read_areas-cut_areas g =
      let n : ℕ = h.data_pool_byte_size in
      elim (Bool-cases (ltb n (start + size))) [
        | inr t ↦
            let fits : start + size ≤ n = ground (arith, t) in
            rw (cut_areas-one h k start size l m fits g) (
              append-nil (take size (drop start xs))
              ∙ take-drop-tabulate xs start size 0 (omega arith)
              ∙ tabulate-ext size (λ i. get_or xs (start + i) 0)
                  (λ i. get_or xs ((start + i) % n) 0)
                  (λ i b. ap (λ (j : ℕ). get_or xs j 0) (sym (lap_within i (omega arith)))))
        | inl t ↦
            let wraps : n < start + size = ltb→lt n (start + size) t in
            rw (cut_areas-two h k start size l m wraps) (
              ap (λ (ys : List ℕ). take (n - start) (drop start xs) ++ ys)
                (append-nil (take (start + size - n) (drop 0 xs)) ∙ second_part wraps)
              ∙ ap
                  (λ (ys : List ℕ).
                    ys
                    ++ tabulate (start + size - n)
                        (λ i. get_or xs ((start + (n - start + i)) % n) 0))
                  (first_part wraps)
              ∙ sym
                  (tabulate-add (n - start) (start + size - n) (λ i. get_or xs ((start + i) % n) 0))
              ∙ ap (λ (t : ℕ). tabulate t (λ i. get_or xs ((start + i) % n) 0)) (omega arith))
      ]
    where
      lap_within :
          (d : ℕ)
          → start + d < h.data_pool_byte_size
          → (start + d) % h.data_pool_byte_size ≡ start + d
      lap_within d b = mod-eq_of_lt b

      first_part :
          h.data_pool_byte_size < start + size
          → take (h.data_pool_byte_size - start) (drop start xs)
            ≡ tabulate
                (h.data_pool_byte_size - start)
                (λ i. get_or xs ((start + i) % h.data_pool_byte_size) 0)
      first_part w =
          take-drop-tabulate xs start (h.data_pool_byte_size - start) 0 (omega arith)
          ∙ tabulate-ext (h.data_pool_byte_size - start) (λ i. get_or xs (start + i) 0)
              (λ i. get_or xs ((start + i) % h.data_pool_byte_size) 0)
              (λ i b. ap (λ (j : ℕ). get_or xs j 0) (sym (lap_within i (omega arith))))

      back : (i : ℕ) → start + (h.data_pool_byte_size - start + i) - h.data_pool_byte_size ≡ 0 + i
      back i = omega arith

      second_part :
          h.data_pool_byte_size < start + size
          → take (start + size - h.data_pool_byte_size) (drop 0 xs)
            ≡ tabulate (start + size - h.data_pool_byte_size) (λ i.
              get_or xs ((start + (h.data_pool_byte_size - start + i)) % h.data_pool_byte_size) 0)
      second_part w =
          take-drop-tabulate xs 0 (start + size - h.data_pool_byte_size) 0 (omega arith)
          ∙ tabulate-ext (start + size - h.data_pool_byte_size) (λ i. get_or xs (0 + i) 0)
              (λ i.
                get_or xs ((start + (h.data_pool_byte_size - start + i)) % h.data_pool_byte_size) 0)
              (λ i b.
                ap (λ (j : ℕ). get_or xs j 0)
                  (sym (
                    mod-eq-sub-mod {n = start + (h.data_pool_byte_size - start + i)}
                      {m = h.data_pool_byte_size} (omega arith)
                    ∙ mod-eq_of_lt (omega arith)
                    ∙ back i)))

  -- What a writer copies in: the first `size` bytes that follow `start` are those of the buffer, and
  -- no other byte changes.
  pub write_areas-cut_areas :
      (buffer : List ℕ) (d : ℕ)
      → 0 < size
      → length buffer ≡ size
      → d < h.data_pool_byte_size
      → get_or
          (write_areas (cut_areas h start size) buffer xs)
          ((start + d) % h.data_pool_byte_size)
          0
        ≡ (if ltb d size
            then get_or buffer d 0
            else get_or xs ((start + d) % h.data_pool_byte_size) 0)
  write_areas-cut_areas buffer d g e b =
      let n : ℕ = h.data_pool_byte_size in
      let q = mod_lap start d n l (omega arith) in
      elim (Bool-cases (ltb n (start + size))) [
        | inr t ↦
            let fits : start + size ≤ n = ground (arith, t) in
            let whole = take-all buffer size (omega arith) in
            rw (cut_areas-one h k start size l m fits g, whole, q)
              (ground (
                arith,
                t,
                copy_in-within start d buffer xs,
                copy_in-before start (start + d - n) buffer xs,
                copy_in-after start (start + d) buffer xs,
              ))
        | inl t ↦
            let wraps : n < start + size = ltb→lt n (start + size) t in
            let a : ℕ = n - start in
            let c : ℕ = start + size - n in
            let one : List ℕ = take a buffer in
            let two : List ℕ = take c (drop a buffer) in
            let ys : List ℕ = copy_in start one xs in
            let sum : a + (d - a) ≡ (if ltb d a then a else d) = ground arith in
            rw (cut_areas-two h k start size l m wraps, q)
              (ground (
                arith,
                sum,
                length-take a buffer,
                length-drop a buffer,
                length-take c (drop a buffer),
                length-copy_in start one xs,
                copy_in-within start d one xs,
                copy_in-before start (start + d - n) one xs,
                copy_in-within 0 (d - a) two ys,
                copy_in-after 0 (start + d - n) two ys,
                copy_in-after 0 (start + d) two ys,
                get_or-take a d buffer,
                get_or-take c (d - a) (drop a buffer),
                get_or-drop a (d - a) buffer,
              ))
      ]
