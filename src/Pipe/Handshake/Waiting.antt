-- ===== src/Pipe/Handshake/Waiting.antt =====
-- core/pipe_impl.cc: the maps of a server's handshake, and how much it waits for.
use Prim.Native.String.{String}
use text.Mathlib.Text.{◌==◌ as str_eq}
use tensorpipe.Prelude.{
  ℕ, zero, suc, ◌+◌, ◌≤◌, ◌≡◌, refl, ap, true, false, Option, none, some, List, [], ◌∷◌, arith, inl,
  inr, Bool-cases, set, get_elem?, replicate, length,
}
use tensorpipe.Pipe.Actions.{has_value}
use tensorpipe.Pipe.Selection.{find_key}
use tensorpipe.Pipe.Handshake.{
  find_registration_id, erase_registration_id, erase_key, put_key, all_present,
}

abbrev pub missing : List (Option ℕ) → ℕ
missing [] = 0
missing (none ∷ cs) = missing cs + 1
missing (some c ∷ cs) = missing cs

abbrev missing_in : Option (List (Option ℕ)) → ℕ
missing_in none = 0
missing_in (some cs) = missing cs

abbrev pub missing_all : List (String × List (Option ℕ)) → ℕ
missing_all [] = 0
missing_all ((name, cs) ∷ rest) = missing cs + missing_all rest

-- The two maps of the channels have the same keys, and each channel waits for a connection.
abbrev pub Aligned : List (String × List ℕ) → List (String × List (Option ℕ)) → Type 0
Aligned [] [] = Unit
Aligned [] (b ∷ bs) = false ≡ true
Aligned (a ∷ as') [] = false ≡ true
Aligned ((n, tokens) ∷ as') ((m, cs) ∷ bs) = (n ≡ m) × (1 ≤ missing cs) × Aligned as' bs

pub missing-replicate : (n : ℕ) → missing (replicate n none) ≡ n
missing-replicate zero = refl
missing-replicate (suc n) = omega (arith, missing-replicate n)

pub missing-set :
    (cs : List (Option ℕ)) (i x : ℕ)
    → get_elem? cs i ≡ some none
    → missing (set cs i (some x)) + 1 ≡ missing cs
missing-set [] i x h = ground arith
missing-set (c ∷ cs) zero x h = ground arith
missing-set (none ∷ cs) (suc i) x h = omega (arith, missing-set cs i x h)
missing-set (some c ∷ cs) (suc i) x h = missing-set cs i x h

pub missing-all_present : (cs : List (Option ℕ)) → all_present cs ≡ true → missing cs ≡ 0
missing-all_present [] h = refl
missing-all_present (none ∷ cs) h = ground arith
missing-all_present (some c ∷ cs) h = missing-all_present cs h

pub missing-not_present : (cs : List (Option ℕ)) → all_present cs ≡ false → 1 ≤ missing cs
missing-not_present [] h = ground arith
missing-not_present (none ∷ cs) h = omega arith
missing-not_present (some c ∷ cs) h = missing-not_present cs h

pub length-erase_registration_id :
    (k : ℕ) (rs : List (ℕ × ℕ))
    → has_value (find_registration_id k rs) ≡ true
    → length (erase_registration_id k rs) + 1 ≡ length rs
unfolding find_registration_id erase_registration_id
length-erase_registration_id k [] h = ground arith
length-erase_registration_id k ((n, token) ∷ rest) h =
    ground (arith, length-erase_registration_id k rest)

pub find_key-Aligned :
    (name : String) (as' : List (String × List ℕ)) (bs : List (String × List (Option ℕ)))
    → Aligned as' bs
    → has_value (find_key name bs) ≡ has_value (find_key name as')
unfolding find_key
find_key-Aligned name [] [] h = refl
find_key-Aligned name [] (b ∷ bs) h = ground arith
find_key-Aligned name (a ∷ as') [] h = ground arith
find_key-Aligned name ((n, tokens) ∷ as') ((m, cs) ∷ bs) h =
    rw h.0 (ground (arith, find_key-Aligned name as' bs h.2))

pub put_key-Aligned :
    (name : String) (cs : List (Option ℕ)) (as' : List (String × List ℕ))
    (bs : List (String × List (Option ℕ)))
    → 1 ≤ missing cs
    → Aligned as' bs
    → Aligned as' (put_key name cs bs)
unfolding put_key
put_key-Aligned name cs [] [] l h = tt
put_key-Aligned name cs [] (b ∷ bs) l h = ground arith
put_key-Aligned name cs (a ∷ as') [] l h = h
put_key-Aligned name cs ((n, tokens) ∷ as') ((m, ds) ∷ bs) l h = elim (Bool-cases (str_eq m name)) [
  | inl e ↦ rw e (h.0, l, h.2)
  | inr e ↦ rw e (h.0, h.1, put_key-Aligned name cs as' bs l h.2)
]

pub erase_key-Aligned :
    (name : String) (as' : List (String × List ℕ)) (bs : List (String × List (Option ℕ)))
    → Aligned as' bs
    → Aligned (erase_key name as') (erase_key name bs)
unfolding erase_key
erase_key-Aligned name [] [] h = tt
erase_key-Aligned name [] (b ∷ bs) h = ground arith
erase_key-Aligned name (a ∷ as') [] h = ground arith
erase_key-Aligned name ((n, tokens) ∷ as') ((m, ds) ∷ bs) h = elim (Bool-cases (str_eq m name)) [
  | inl e ↦ rw h.0 (rw e h.2)
  | inr e ↦ rw h.0 (rw e (refl, h.1, erase_key-Aligned name as' bs h.2))
]

pub missing_all-put_key :
    (name : String) (cs ds : List (Option ℕ)) (bs : List (String × List (Option ℕ)))
    → find_key name bs ≡ some ds
    → missing_all (put_key name cs bs) + missing ds ≡ missing_all bs + missing cs
unfolding find_key put_key
missing_all-put_key name cs ds [] h = ground arith
missing_all-put_key name cs ds ((m, es) ∷ bs) h = elim (Bool-cases (str_eq m name)) [
  | inl e ↦ rw e (let q = rw e at h in omega (arith, ap missing_in q))
  | inr e ↦ rw e (let q = missing_all-put_key name cs ds bs (rw e at h) in omega (arith, q))
]

pub erase_key-put_key :
    (name : String) (cs : List (Option ℕ)) (bs : List (String × List (Option ℕ)))
    → erase_key name (put_key name cs bs) ≡ erase_key name bs
unfolding put_key erase_key
erase_key-put_key name cs [] = refl
erase_key-put_key name cs ((m, es) ∷ bs) = elim (Bool-cases (str_eq m name)) [
  | inl e ↦ rw e (rw e refl)
  | inr e ↦ rw e (rw e (ap (λ x. (m, es) ∷ x) (erase_key-put_key name cs bs)))
]

pub missing_all-erase_key :
    (name : String) (ds : List (Option ℕ)) (bs : List (String × List (Option ℕ)))
    → find_key name bs ≡ some ds
    → missing_all (erase_key name bs) + missing ds ≡ missing_all bs
unfolding find_key erase_key
missing_all-erase_key name ds [] h = ground arith
missing_all-erase_key name ds ((m, es) ∷ bs) h = elim (Bool-cases (str_eq m name)) [
  | inl e ↦ rw e (let q = rw e at h in omega (arith, ap missing_in q))
  | inr e ↦ rw e (let q = missing_all-erase_key name ds bs (rw e at h) in omega (arith, q))
]
