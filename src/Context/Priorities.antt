-- ===== src/Context/Priorities.antt =====
-- core/context_impl.cc: the transports and the channels are ordered by priority.
use Prim.Native.String.{String}
use text.Mathlib.Text.{◌==◌ as str_eq}
use tensorpipe.Prelude.{
  zero, suc, ◌+◌, ◌-◌, ◌^◌, ◌<◌, length, ◌≡◌, ◌⊎◌, refl, sym, subst, Bool, true, false, ◌||◌, List,
  [], ◌∷◌, arith, inl, inr, Bool-cases,
}
use tensorpipe.Pipe.Types.{ℤ, pos, negsuc, int_eq}
use tensorpipe.Context.{
  Registry, int_lt, negate64, has_key, has_priority, emplace_priority, register_context,
  register_contexts,
}

abbrev pub HeadAbove : ℤ → List (ℤ × String) → Type 0
HeadAbove q [] = Unit
HeadAbove q ((p, n) ∷ rest) = int_lt q p ≡ true

abbrev pub IsAscending : List (ℤ × String) → Type 0
IsAscending [] = Unit
IsAscending ((p, n) ∷ rest) = HeadAbove p rest × IsAscending rest

int_lt-total : (p q : ℤ) → int_lt p q ≡ false → int_eq q p ≡ false → int_lt q p ≡ true
int_lt-total (pos a) (pos b) h e = ground arith
int_lt-total (pos a) (negsuc b) h e = ground arith
int_lt-total (negsuc a) (pos b) h e = ground arith
int_lt-total (negsuc a) (negsuc b) h e = ground arith

neither : (a b : Bool) → (a || b) ≡ false → (a ≡ false) × (b ≡ false)
neither a b h = ground arith

emplace_priority-HeadAbove :
    (q p : ℤ) (name : String) (l : List (ℤ × String))
    → int_lt q p ≡ true
    → HeadAbove q l
    → HeadAbove q (emplace_priority p name l)
unfolding emplace_priority
emplace_priority-HeadAbove q p name [] h b = h
emplace_priority-HeadAbove q p name ((r, n) ∷ rest) h b = elim (Bool-cases (int_lt p r)) [
  | inl e ↦ rw e h
  | inr e ↦ rw e b
]

emplace_priority-IsAscending :
    (p : ℤ) (name : String) (l : List (ℤ × String))
    → has_priority p l ≡ false
    → IsAscending l
    → IsAscending (emplace_priority p name l)
unfolding emplace_priority
emplace_priority-IsAscending p name [] h d = (tt, tt)
emplace_priority-IsAscending p name ((q, n) ∷ rest) h d =
    let (ne, h') = neither _ _ h in
    elim (Bool-cases (int_lt p q)) [
      | inl e ↦ rw e (e, d)
      | inr e ↦ rw e (
        emplace_priority-HeadAbove q p name rest (int_lt-total p q e ne) d.0,
        emplace_priority-IsAscending p name rest h' d.1,
      )
    ]

-- The priorities, by the map's order, are strictly decreasing.
abbrev pub HeadBelow : ℤ → List (ℤ × String) → Type 0
HeadBelow q [] = Unit
HeadBelow q ((p, n) ∷ rest) = int_lt p q ≡ true

abbrev pub IsDescending : List (ℤ × String) → Type 0
IsDescending [] = Unit
IsDescending ((p, n) ∷ rest) = HeadBelow p rest × IsDescending rest

-- An `int64_t`, and not the least
abbrev pub IsAboveLeast : ℤ → Type 0
IsAboveLeast (pos n) = n < 2 ^ 63
IsAboveLeast (negsuc n) = n < 2 ^ 63 - 1

abbrev pub AreAboveLeast : List (ℤ × String × Bool) → Type 0
AreAboveLeast [] = Unit
AreAboveLeast ((p, name, viable) ∷ rest) = IsAboveLeast p × AreAboveLeast rest

-- The priority and the name of each entry have been given to a registration of a viable context.
abbrev pub WasGiven : ℤ → String → List (ℤ × String × Bool) → Type 0
WasGiven p name [] = ⊥
WasGiven p name ((q, other, viable) ∷ rest) =
    ((p ≡ q) × (name ≡ other) × (viable ≡ true)) ⊎ WasGiven p name rest

negate64-involutive : (p : ℤ) → IsAboveLeast p → negate64 (negate64 p) ≡ p
unfolding negate64
negate64-involutive (pos zero) b = refl
negate64-involutive (pos (suc n)) b = ground arith
negate64-involutive (negsuc n) b = ground arith

negate64-IsAboveLeast : (p : ℤ) → IsAboveLeast p → IsAboveLeast (negate64 p)
unfolding negate64
negate64-IsAboveLeast (pos zero) b = omega arith
negate64-IsAboveLeast (pos (suc n)) b = omega arith
negate64-IsAboveLeast (negsuc n) b = ground arith

negate64-reverses :
    (p q : ℤ)
    → IsAboveLeast p
    → IsAboveLeast q
    → int_lt p q ≡ true
    → int_lt (negate64 q) (negate64 p) ≡ true
unfolding negate64
negate64-reverses (pos zero) (pos zero) a b h = ground arith
negate64-reverses (pos zero) (pos (suc n)) a b h = ground arith
negate64-reverses (pos (suc m)) (pos zero) a b h = ground arith
negate64-reverses (pos (suc m)) (pos (suc n)) a b h = ground arith
negate64-reverses (pos m) (negsuc n) a b h = ground arith
negate64-reverses (negsuc m) (pos zero) a b h = ground arith
negate64-reverses (negsuc m) (pos (suc n)) a b h = ground arith
negate64-reverses (negsuc m) (negsuc n) a b h = ground arith

-- The priorities of the map's entries, in its order
abbrev pub priorities : List (ℤ × String) → List (ℤ × String)
priorities [] = []
priorities ((key, name) ∷ rest) = (negate64 key, name) ∷ priorities rest

-- All entries are for priorities and names of which something holds.
abbrev pub AreGiven : (ℤ → String → Type 0) → List (ℤ × String) → Type 0
AreGiven G [] = Unit
AreGiven G ((p, name) ∷ rest) = G p name × AreGiven G rest

-- The keys are negations of given priorities.
abbrev AreKeys : (ℤ → String → Type 0) → List (ℤ × String) → Type 0
AreKeys G [] = Unit
AreKeys G ((key, name) ∷ rest) = (IsAboveLeast key × G (negate64 key) name) × AreKeys G rest

priorities-AreGiven :
    (G : ℤ → String → Type 0) (l : List (ℤ × String)) → AreKeys G l → AreGiven G (priorities l)
priorities-AreGiven G [] k = tt
priorities-AreGiven G ((key, name) ∷ rest) k = (k.0.1, priorities-AreGiven G rest k.1)

priorities-IsDescending :
    (G : ℤ → String → Type 0) (l : List (ℤ × String))
    → AreKeys G l
    → IsAscending l
    → IsDescending (priorities l)
priorities-IsDescending G [] k d = tt
priorities-IsDescending G ((key, name) ∷ []) k d = (tt, tt)
priorities-IsDescending G ((key, name) ∷ (next, other) ∷ rest) k d = (
  negate64-reverses key next k.0.0 k.1.0.0 d.0,
  priorities-IsDescending G ((next, other) ∷ rest) k.1 d.1,
)

emplace_priority-AreKeys :
    (G : ℤ → String → Type 0) (p : ℤ) (name : String) (l : List (ℤ × String))
    → IsAboveLeast p × G (negate64 p) name
    → AreKeys G l
    → AreKeys G (emplace_priority p name l)
unfolding emplace_priority
emplace_priority-AreKeys G p name [] g k = (g, tt)
emplace_priority-AreKeys G p name ((q, n) ∷ rest) g k = elim (Bool-cases (int_lt p q)) [
  | inl e ↦ rw e (g, k)
  | inr e ↦ rw e (k.0, emplace_priority-AreKeys G p name rest g k.1)
]

abbrev pub AreDifferent : List String → Type 0
AreDifferent [] = Unit
AreDifferent (n ∷ ns) = (has_key n ns ≡ false) × AreDifferent ns

length-emplace_priority :
    (p : ℤ) (name : String) (l : List (ℤ × String))
    → length (emplace_priority p name l) ≡ length l + 1
unfolding emplace_priority
length-emplace_priority p name [] = refl
length-emplace_priority p name ((q, n) ∷ rest) = ground (arith, length-emplace_priority p name rest)

-- What the registrations keep
record IsKept (G : ℤ → String → Type 0) (r : Registry) : Type 0 where
  ascending : IsAscending r.by_priority
  keys : AreKeys G r.by_priority
  different : AreDifferent r.names
  all_ranked : length r.by_priority ≡ length r.names

register_context-IsKept :
    (G : ℤ → String → Type 0) (p : ℤ) (name : String) (viable : Bool) (r : Registry)
    → IsAboveLeast p
    → (viable ≡ true → G p name)
    → IsKept G r
    → IsKept G (register_context p name viable r).0
unfolding register_context
register_context-IsKept G p name viable r b g i =
    let key : ℤ = negate64 p in
    elim (Bool-cases (str_eq name "" || has_key name r.names || has_priority key r.by_priority)) [
      | inl e ↦ rw e i
      | inr e ↦
          let ranked : has_priority key r.by_priority ≡ false = (neither _ _ e).1 in
          let named : has_key name r.names ≡ false = (neither _ _ (neither _ _ e).0).1 in
          elim (Bool-cases viable) [
            | inl v ↦ rw e (
                rw v (record {
                  ascending =
                      emplace_priority-IsAscending key name r.by_priority ranked i.ascending;
                  keys =
                      emplace_priority-AreKeys G key name r.by_priority
                        (
                          negate64-IsAboveLeast p b,
                          subst (λ (q : ℤ). G q name) (sym (negate64-involutive p b)) (g v),
                        )
                        i.keys;
                  different = (named, i.different);
                  all_ranked =
                      omega (arith, length-emplace_priority key name r.by_priority, i.all_ranked);
                }))
            | inr v ↦ rw e (rw v i)
          ]
    ]

register_contexts-keeps :
    (G : ℤ → String → Type 0) (rs : List (ℤ × String × Bool)) (r : Registry)
    → AreAboveLeast rs
    → ((p : ℤ) (name : String) → WasGiven p name rs → G p name)
    → IsKept G r
    → IsKept G (register_contexts rs r)
unfolding register_contexts
register_contexts-keeps G [] r b g i = i
register_contexts-keeps G ((p, name, viable) ∷ rest) r b g i =
    register_contexts-keeps G rest (register_context p name viable r).0 b.1
      (λ q other w. g q other (inr w))
      (register_context-IsKept G p name viable r b.0 (λ v. g p name (inl (refl, refl, v))) i)

pub record IsRegistry (rs : List (ℤ × String × Bool)) (r : Registry) : Type 0 where
  pub descending : IsDescending (priorities r.by_priority)
  pub given : AreGiven (λ p name. WasGiven p name rs) (priorities r.by_priority)
  pub different : AreDifferent r.names
  pub all_ranked : length r.by_priority ≡ length r.names

-- After any registrations of transports, or of channels, with priorities above the least `int64_t`,
-- those that throw and those that are not viable included: the map goes through strictly decreasing
-- priorities, the priority and the name of each entry are those of a registration that was viable,
-- the names are different, and there are as many of the one as of the other.
pub register_contexts-IsRegistry :
    (rs : List (ℤ × String × Bool))
    → AreAboveLeast rs
    → IsRegistry rs (register_contexts rs (record { names = []; by_priority = [] }))
register_contexts-IsRegistry rs b =
    let G : ℤ → String → Type 0 = λ p name. WasGiven p name rs in
    let kept : IsKept G (register_contexts rs (record { names = []; by_priority = [] })) =
      register_contexts-keeps G rs _ b (λ p name w. w)
        (record { ascending = tt; keys = tt; different = tt; all_ranked = refl }) in
    record {
      descending = priorities-IsDescending G _ kept.keys kept.ascending;
      given = priorities-AreGiven G _ kept.keys;
      different = kept.different;
      all_ranked = kept.all_ranked;
    }
