-- ===== src/Prelude/Lists.antt =====
-- Lists measured and indexed by native numbers, under the library's names.
use Prim.Native.Nat.{ℕ, zero, suc, ◌+◌, ◌-◌, ◌≤◌, ◌<◌, min}
use mathlib.Core.Path.{◌≡◌, refl, ap, sym, ◌∙◌}
use mathlib.Core.Logic.{◌≢◌}
use mathlib.Core.List.{List, [], ◌∷◌, ◌++◌, map}
use mathlib.Core.Option.{Option, none, some}
use native.Mathlib.Omega.{arith}

module _ {ℓ} {A : Type ℓ} where
  abbrev pub length : List A → ℕ
  length [] = 0
  length (x ∷ xs) = suc (length xs)

  abbrev pub get_elem? : List A → ℕ → Option A
  get_elem? [] i = none
  get_elem? (x ∷ xs) zero = some x
  get_elem? (x ∷ xs) (suc i) = get_elem? xs i

  -- A write out of bounds changes nothing.
  abbrev pub set : List A → ℕ → A → List A
  set [] i v = []
  set (x ∷ xs) zero v = v ∷ xs
  set (x ∷ xs) (suc i) v = x ∷ set xs i v

  pub length-append : (xs ys : List A) → length (xs ++ ys) ≡ length xs + length ys
  length-append [] ys = omega arith
  length-append (x ∷ xs) ys = omega (arith, length-append xs ys)

module _ {ℓ} {A : Type ℓ} where
  pub length-set : (xs : List A) (i : ℕ) (v : A) → length (set xs i v) ≡ length xs
  length-set [] i v = refl
  length-set (x ∷ xs) zero v = refl
  length-set (x ∷ xs) (suc i) v = ap suc (length-set xs i v)

  pub get_elem?-set_self :
      (xs : List A) (i : ℕ) (v : A) → i < length xs → get_elem? (set xs i v) i ≡ some v
  get_elem?-set_self [] i v h = elim h [ ]
  get_elem?-set_self (x ∷ xs) zero v h = refl
  get_elem?-set_self (x ∷ xs) (suc i) v h = get_elem?-set_self xs i v (omega arith)

  pub get_elem?-set_ne :
      (xs : List A) {i j : ℕ} (v : A) → i ≢ j → get_elem? (set xs i v) j ≡ get_elem? xs j
  get_elem?-set_ne [] v h = refl
  get_elem?-set_ne (x ∷ xs) {i = zero} {j = zero} v h = absurd (h refl)
  get_elem?-set_ne (x ∷ xs) {i = zero} {j = suc j} v h = refl
  get_elem?-set_ne (x ∷ xs) {i = suc i} {j = zero} v h = refl
  get_elem?-set_ne (x ∷ xs) {i = suc i} {j = suc j} v h = get_elem?-set_ne xs v (λ e. h (ap suc e))

module _ {ℓ} {A : Type ℓ} where
  abbrev pub get_or : List A → ℕ → A → A
  get_or [] i d = d
  get_or (x ∷ xs) zero d = x
  get_or (x ∷ xs) (suc i) d = get_or xs i d

  abbrev pub take : ℕ → List A → List A
  take zero xs = []
  take (suc n) [] = []
  take (suc n) (x ∷ xs) = x ∷ take n xs

  abbrev pub drop : ℕ → List A → List A
  drop zero xs = xs
  drop (suc n) [] = []
  drop (suc n) (x ∷ xs) = drop n xs

  abbrev pub replicate : ℕ → A → List A
  replicate zero a = []
  replicate (suc n) a = a ∷ replicate n a

  pub take-append-drop : (n : ℕ) (xs : List A) → take n xs ++ drop n xs ≡ xs
  take-append-drop zero xs = refl
  take-append-drop (suc n) [] = refl
  take-append-drop (suc n) (x ∷ xs) = rw (take-append-drop n xs)

  pub length-take : (n : ℕ) (xs : List A) → length (take n xs) ≡ min n (length xs)
  length-take zero xs = omega arith
  length-take (suc n) [] = omega arith
  length-take (suc n) (x ∷ xs) = omega (arith, length-take n xs)

  pub length-drop : (n : ℕ) (xs : List A) → length (drop n xs) ≡ length xs - n
  length-drop zero xs = omega arith
  length-drop (suc n) [] = omega arith
  length-drop (suc n) (x ∷ xs) = omega (arith, length-drop n xs)

  pub length-replicate : (n : ℕ) (a : A) → length (replicate n a) ≡ n
  length-replicate zero a = refl
  length-replicate (suc n) a = ap suc (length-replicate n a)

  pub length-map {κ} : {B : Type κ} (xs : List A) (f : A → B) → length (map f xs) ≡ length xs
  length-map [] f = refl
  length-map (x ∷ xs) f = ap suc (length-map xs f)

suc_sum : (m i : ℕ) → suc (m + i) ≡ m + suc i
suc_sum m i = omega arith

sum_suc : (m i : ℕ) → suc (m + i) ≡ suc m + i
sum_suc m i = omega arith

zero_sum : (i : ℕ) → i ≡ 0 + i
zero_sum i = omega arith

-- The values of a function at the first numbers.
module _ {ℓ} {A : Type ℓ} where
  abbrev pub tabulate : ℕ → (ℕ → A) → List A
  tabulate zero f = []
  tabulate (suc n) f = f 0 ∷ tabulate n (λ i. f (suc i))

  pub length-tabulate : (n : ℕ) (f : ℕ → A) → length (tabulate n f) ≡ n
  length-tabulate zero f = refl
  length-tabulate (suc n) f = ap suc (length-tabulate n (λ i. f (suc i)))

  pub tabulate-ext :
      (n : ℕ) (f g : ℕ → A) → ((i : ℕ) → i < n → f i ≡ g i) → tabulate n f ≡ tabulate n g
  tabulate-ext zero f g h = refl
  tabulate-ext (suc n) f g h =
      rw
        (
          h 0 (omega arith),
          tabulate-ext n (λ i. f (suc i)) (λ i. g (suc i)) (λ i k. h (suc i) (omega arith)),
        )
        refl

  pub tabulate-add :
      (m n : ℕ) (f : ℕ → A) → tabulate (m + n) f ≡ tabulate m f ++ tabulate n (λ i. f (m + i))
  tabulate-add zero n f =
      ap (λ (t : ℕ). tabulate t f) (sym (zero_sum n))
      ∙ tabulate-ext n f (λ i. f (0 + i)) (λ i h. ap f (zero_sum i))
  tabulate-add (suc m) n f =
      ap (λ (t : ℕ). tabulate t f) (sym (sum_suc m n))
      ∙ ap (λ (xs : List A). f 0 ∷ xs)
          (tabulate-add m n (λ i. f (suc i))
            ∙ ap (λ (xs : List A). tabulate m (λ i. f (suc i)) ++ xs)
                (tabulate-ext n (λ i. f (suc (m + i))) (λ i. f (suc m + i))
                  (λ i h. ap f (sum_suc m i))))

  pub take-drop-tabulate :
      (xs : List A) (p n : ℕ) (d : A)
      → p + n ≤ length xs
      → take n (drop p xs) ≡ tabulate n (λ i. get_or xs (p + i) d)
  take-drop-tabulate xs zero zero d h = refl
  take-drop-tabulate [] zero (suc n) d h = absurd (omega arith)
  take-drop-tabulate (x ∷ xs) zero (suc n) d h =
      ap (λ (ys : List A). x ∷ ys)
        (take-drop-tabulate xs zero n d (omega arith)
          ∙ tabulate-ext n (λ i. get_or xs (0 + i) d) (λ i. get_or (x ∷ xs) (0 + suc i) d)
              (λ i l. ap (λ (t : ℕ). get_or (x ∷ xs) t d) (suc_sum 0 i)))
  take-drop-tabulate [] (suc p) zero d h = refl
  take-drop-tabulate [] (suc p) (suc n) d h = absurd (omega arith)
  take-drop-tabulate (x ∷ xs) (suc p) n d h =
      take-drop-tabulate xs p n d (omega arith)
      ∙ tabulate-ext n (λ i. get_or xs (p + i) d) (λ i. get_or (x ∷ xs) (suc p + i) d)
          (λ i l. ap (λ (t : ℕ). get_or (x ∷ xs) t d) (sum_suc p i))

  pub tabulate-get_or : (xs : List A) (d : A) → tabulate (length xs) (λ i. get_or xs i d) ≡ xs
  tabulate-get_or [] d = refl
  tabulate-get_or (x ∷ xs) d = ap (λ (ys : List A). x ∷ ys) (tabulate-get_or xs d)

  pub take-length-append : (xs ys : List A) → take (length xs) (xs ++ ys) ≡ xs
  take-length-append [] ys = refl
  take-length-append (x ∷ xs) ys = ap (λ (zs : List A). x ∷ zs) (take-length-append xs ys)

  pub drop-length-append : (xs ys : List A) → drop (length xs) (xs ++ ys) ≡ ys
  drop-length-append [] ys = refl
  drop-length-append (x ∷ xs) ys = drop-length-append xs ys

  pub take-tabulate : (m n : ℕ) (f : ℕ → A) → take m (tabulate (m + n) f) ≡ tabulate m f
  take-tabulate m n f =
      ap (λ (zs : List A). take m zs) (tabulate-add m n f)
      ∙ ap (λ (t : ℕ). take t (tabulate m f ++ tabulate n (λ i. f (m + i))))
          (sym (length-tabulate m f))
      ∙ take-length-append (tabulate m f) (tabulate n (λ i. f (m + i)))

  pub drop-tabulate :
      (m n : ℕ) (f : ℕ → A) → drop m (tabulate (m + n) f) ≡ tabulate n (λ i. f (m + i))
  drop-tabulate m n f =
      ap (λ (zs : List A). drop m zs) (tabulate-add m n f)
      ∙ ap (λ (t : ℕ). drop t (tabulate m f ++ tabulate n (λ i. f (m + i))))
          (sym (length-tabulate m f))
      ∙ drop-length-append (tabulate m f) (tabulate n (λ i. f (m + i)))
