-- ===== src/Pipe/Selection/First.antt =====
-- core/pipe_impl.cc: what `selectChannels` selects for each pair of devices.
use Prim.Native.String.{String}
use text.Mathlib.TextEquality.{eq_iff}
use tensorpipe.Prelude.{
  Bool, true, false, not, ◌&&◌, ◌||◌, ◌≡◌, refl, sym, ◌∙◌, ap, Option, none, some, List, [], ◌∷◌,
  if◌then◌else◌, arith, inl, inr, Bool-cases, Option-cases,
}
use tensorpipe.Pipe.Types.{ℤ, pos, negsuc, int_eq, Device, device_eq}
use tensorpipe.Pipe.Actions.{has_value, find_channel}
use tensorpipe.Pipe.Selection.{
  find_key, ChannelContext, SelectedChannels, try_pair, try_remotes, try_locals, try_channel,
  select_channels_from, select_channels,
}

int_eq-path : (a b : ℤ) → int_eq a b ≡ true → a ≡ b
int_eq-path (pos a) (pos b) h = ground arith
int_eq-path (pos a) (negsuc b) h = ground arith
int_eq-path (negsuc a) (pos b) h = ground arith
int_eq-path (negsuc a) (negsuc b) h = ground arith

both-true : (a b : Bool) → a && b ≡ true → (a ≡ true) × (b ≡ true)
both-true a b h = ground arith

device_eq-path : (a b : Device) → device_eq a b ≡ true → a ≡ b
device_eq-path a b h =
    let same = both-true _ _ h in
    let p : a.device_type ≡ b.device_type = (eq_iff a.device_type b.device_type).0 same.0 in
    let q : a.index ≡ b.index = int_eq-path a.index b.index same.1 in
    λ i. record { device_type = p i; index = q i }

-- The first of two answers
abbrev pub or_else {ℓ} : {A : Type ℓ} → Option A → Option A → Option A
or_else none b = b
or_else (some a) b = some a

-- Whether a channel can be used between two devices: it has them, and its descriptors agree.
abbrev pub remote_fits : ChannelContext → String → Device → List (Device × String) → Bool
remote_fits c descriptor r [] = false
remote_fits c descriptor r ((device, remote_descriptor) ∷ rest) =
    (device_eq device r && c.can_communicate_with_remote descriptor remote_descriptor)
    || remote_fits c descriptor r rest

abbrev pub fits :
    ChannelContext → Device → Device → List (Device × String) → List (Device × String) → Bool
fits c l r [] remotes = false
fits c l r ((device, descriptor) ∷ rest) remotes =
    (device_eq device l && remote_fits c descriptor r remotes) || fits c l r rest remotes

-- The first channel, by priority, that both sides have and that can be used.
abbrev pub first_channel :
    Device → Device → List ChannelContext → List (String × List (Device × String)) → Option String
first_channel l r [] remote = none
first_channel l r (c ∷ cs) remote = elim (find_key c.name remote) [
  | none ↦ first_channel l r cs remote
  | some remotes ↦
      if fits c l r c.device_descriptors remotes then some c.name else first_channel l r cs remote
]

abbrev pub named : Bool → String → Option String
named b name = if b then some name else none

named-or :
    (a b : Bool) (name : String) (o : Option String)
    → or_else (or_else o (named a name)) (named b name) ≡ or_else o (named (a || b) name)
named-or a b name none = ground arith
named-or a b name (some x) = refl

-- A pair is found where a channel is put for it, and is not put twice.
put-find :
    (same can : Bool) (found found_pair : Option String) (name : String)
    → (same ≡ true → found_pair ≡ found)
    → (if not can || has_value found_pair then found else (if same then some name else found))
      ≡ or_else found (named (same && can) name)
put-find true true found found_pair name h = let e = h refl in ground arith
put-find true false found found_pair name h = ground arith
put-find false can found found_pair name h = ground arith

try_pair-find :
    (c : ChannelContext) (l r : Device) (x y : Device × String) (b : Bool)
    (pairs : List ((Device × Device) × String))
    → find_channel l r (try_pair c x y (b, pairs)).1
      ≡ or_else (find_channel l r pairs) (
          named
            (device_eq x.0 l && device_eq y.0 r && c.can_communicate_with_remote x.1 y.1)
            c.name)
unfolding try_pair find_channel
try_pair-find c l r x y b pairs =
    let can : Bool = c.can_communicate_with_remote x.1 y.1 in
    let same : Bool = device_eq x.0 l && device_eq y.0 r in
    let found : (same ≡ true) → find_channel x.0 y.0 pairs ≡ find_channel l r pairs = λ h.
      ap (λ (d : Device). find_channel d y.0 pairs) (device_eq-path x.0 l (both-true _ _ h).0)
      ∙ ap (λ (d : Device). find_channel l d pairs) (device_eq-path y.0 r (both-true _ _ h).1) in
    let put =
      put-find same can (find_channel l r pairs) (find_channel x.0 y.0 pairs) c.name found in
    elim (Bool-cases (not can || has_value (find_channel x.0 y.0 pairs))) [
      | inl e ↦ rw e (rw e at put)
      | inr e ↦ rw e (rw e at put)
    ]

distribute : (a b c d : Bool) → (a && b && c) || (a && d) ≡ a && ((b && c) || d)
distribute a b c d = ground arith

or_else-nothing : (o : Option String) → or_else o none ≡ o
or_else-nothing none = refl
or_else-nothing (some a) = refl

pub no_remote : (a : Bool) → (a && false) ≡ false
no_remote a = ground arith

try_remotes-find :
    (c : ChannelContext) (l r : Device) (x : Device × String) (rs : List (Device × String))
    (s : Bool × List ((Device × Device) × String))
    → find_channel l r (try_remotes c x rs s).1
      ≡ or_else (find_channel l r s.1) (named (device_eq x.0 l && remote_fits c x.1 r rs) c.name)
unfolding try_remotes
try_remotes-find c l r x [] s =
    let e = no_remote (device_eq x.0 l) in
    sym (ap (λ (b : Bool). or_else (find_channel l r s.1) (named b c.name)) e ∙ or_else-nothing _)
try_remotes-find c l r x (y ∷ ys) s =
    try_remotes-find c l r x ys (try_pair c x y s)
    ∙ ap
        (λ (o : Option String).
          or_else o (named (device_eq x.0 l && remote_fits c x.1 r ys) c.name))
        (try_pair-find c l r x y s.0 s.1)
    ∙ named-or _ _ c.name (find_channel l r s.1)
    ∙ ap (λ (b : Bool). or_else (find_channel l r s.1) (named b c.name))
        (distribute (device_eq x.0 l) (device_eq y.0 r) (c.can_communicate_with_remote x.1 y.1)
          (remote_fits c x.1 r ys))

pub try_locals-find :
    (c : ChannelContext) (l r : Device) (ls rs : List (Device × String))
    (s : Bool × List ((Device × Device) × String))
    → find_channel l r (try_locals c ls rs s).1
      ≡ or_else (find_channel l r s.1) (named (fits c l r ls rs) c.name)
unfolding try_locals
try_locals-find c l r [] rs s = sym (or_else-nothing _)
try_locals-find c l r (x ∷ xs) rs s =
    try_locals-find c l r xs rs (try_remotes c x rs s)
    ∙ ap (λ (o : Option String). or_else o (named (fits c l r xs rs) c.name))
        (try_remotes-find c l r x rs s)
    ∙ named-or _ _ c.name (find_channel l r s.1)

choose :
    (b : Bool) (name : String) (o p : Option String)
    → or_else (or_else o (named b name)) p ≡ or_else o (if b then some name else p)
choose b name none p = ground arith
choose b name (some x) p = refl

try_channel-find :
    (c : ChannelContext) (cs : List ChannelContext) (l r : Device)
    (remote : List (String × List (Device × String))) (s : SelectedChannels)
    → or_else
        (find_channel l r (try_channel remote c s).channel_for_device_pair)
        (first_channel l r cs remote)
      ≡ or_else (find_channel l r s.channel_for_device_pair) (first_channel l r (c ∷ cs) remote)
unfolding try_channel
try_channel-find c cs l r remote s = elim (Option-cases (find_key c.name remote)) [
  | inl e ↦ rw (first_channel, try_channel, e) refl
  | inr (rs, e) ↦
      rw (first_channel, try_channel, e)
        (ap (λ (o : Option String). or_else o (first_channel l r cs remote))
            (try_locals-find c l r c.device_descriptors rs (false, s.channel_for_device_pair))
          ∙ choose (fits c l r c.device_descriptors rs) c.name
              (find_channel l r s.channel_for_device_pair) (first_channel l r cs remote))
]

select_channels_from-find :
    (cs : List ChannelContext) (l r : Device) (remote : List (String × List (Device × String)))
    (s : SelectedChannels)
    → find_channel l r (select_channels_from cs remote s).channel_for_device_pair
      ≡ or_else (find_channel l r s.channel_for_device_pair) (first_channel l r cs remote)
unfolding select_channels_from
select_channels_from-find [] l r remote s = sym (or_else-nothing _)
select_channels_from-find (c ∷ cs) l r remote s =
    select_channels_from-find cs l r remote (try_channel remote c s)
    ∙ try_channel-find c cs l r remote s

-- For every pair of devices, `selectChannels` selects the first channel, by priority, that both
-- sides have and whose descriptors for the two devices can communicate, and none where no channel
-- can.
pub select_channels-first :
    (cs : List ChannelContext) (remote : List (String × List (Device × String))) (l r : Device)
    → find_channel l r (select_channels cs remote).channel_for_device_pair
      ≡ first_channel l r cs remote
unfolding select_channels find_channel
select_channels-first cs remote l r = select_channels_from-find cs l r remote _
