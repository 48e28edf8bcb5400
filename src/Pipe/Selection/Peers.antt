-- ===== src/Pipe/Selection/Peers.antt =====
-- core/pipe_impl.cc: the two ends of a channel, and the answer that `selectChannels` makes.
use Prim.Native.String.{String}
use text.Mathlib.Text.{◌==◌ as str_eq}
use text.Mathlib.TextEquality.{eq_iff}
use tensorpipe.Prelude.{
  Bool, true, false, not, ◌&&◌, ◌||◌, ◌≡◌, refl, sym, ◌∙◌, ap, Option, none, some, List, [], ◌∷◌,
  if◌then◌else◌, arith, ◌⊎◌, inl, inr, Bool-cases, Option-cases,
}
use tensorpipe.Pipe.Types.{Device, device_eq}
use tensorpipe.Pipe.Actions.{has_value, find_channel}
use tensorpipe.Pipe.Selection.{
  find_key, ChannelContext, SelectedChannels, try_pair, try_remotes, try_locals, try_channel,
  select_channels_from,
}
use tensorpipe.Pipe.Selection.First.{
  remote_fits, fits, first_channel, no_remote, try_locals-find, or_else, named,
}

-- The two ends of one channel: the same name, and an answer that does not depend on the end.
pub record IsPeer (c k : ChannelContext) : Type 0 where
  pub same_name : k.name ≡ c.name
  pub symmetric :
      (a b : String) → k.can_communicate_with_remote a b ≡ c.can_communicate_with_remote b a

abbrev pub ArePeers : List ChannelContext → List ChannelContext → Type 0
ArePeers [] [] = Unit
ArePeers [] (k ∷ ks) = false ≡ true
ArePeers (c ∷ cs) [] = false ≡ true
ArePeers (c ∷ cs) (k ∷ ks) = IsPeer c k × ArePeers cs ks

abbrev pub has_name : String → List ChannelContext → Bool
has_name name [] = false
has_name name (c ∷ cs) = str_eq c.name name || has_name name cs

abbrev pub AreDistinct : List ChannelContext → Type 0
AreDistinct [] = Unit
AreDistinct (c ∷ cs) = (has_name c.name cs ≡ false) × AreDistinct cs

-- The part of the brochure on the channels, which `initFromLoop` writes
unfoldable pub describe_channels : List ChannelContext → List (String × List (Device × String))
describe_channels [] = []
describe_channels (c ∷ cs) = (c.name, c.device_descriptors) ∷ describe_channels cs

-- A channel that puts no pair is not selected, and the other way round.
try_pair-unselected :
    (c : ChannelContext) (x y : Device × String) (b : Bool)
    (pairs : List ((Device × Device) × String))
    → (try_pair c x y (b, pairs)).0 ≡ false
    → (b ≡ false) × ((try_pair c x y (b, pairs)).1 ≡ pairs)
unfolding try_pair
try_pair-unselected c x y b pairs h =
    elim (Bool-cases
      (not (c.can_communicate_with_remote x.1 y.1) || has_value (find_channel x.0 y.0 pairs))) [
        | inl e ↦ rw e ((rw e at h), refl)
        | inr e ↦ absurd (let q = rw e at h in ground arith)
      ]

try_remotes-unselected :
    (c : ChannelContext) (x : Device × String) (ys : List (Device × String))
    (s : Bool × List ((Device × Device) × String))
    → (try_remotes c x ys s).0 ≡ false
    → (s.0 ≡ false) × ((try_remotes c x ys s).1 ≡ s.1)
unfolding try_remotes
try_remotes-unselected c x [] s h = (h, refl)
try_remotes-unselected c x (y ∷ ys) s h =
    let (b, e) = try_remotes-unselected c x ys (try_pair c x y s) h in
    let (b', e') = try_pair-unselected c x y s.0 s.1 b in (b', e ∙ e')

pub try_locals-unselected :
    (c : ChannelContext) (xs ys : List (Device × String))
    (s : Bool × List ((Device × Device) × String))
    → (try_locals c xs ys s).0 ≡ false
    → (s.0 ≡ false) × ((try_locals c xs ys s).1 ≡ s.1)
unfolding try_locals
try_locals-unselected c [] ys s h = (h, refl)
try_locals-unselected c (x ∷ xs) ys s h =
    let (b, e) = try_locals-unselected c xs ys (try_remotes c x ys s) h in
    let (b', e') = try_remotes-unselected c x ys s b in (b', e ∙ e')

-- Seen from the other end, a channel fits the same pairs.
fits-nil :
    (c : ChannelContext) (l r : Device) (xs : List (Device × String)) → fits c l r xs [] ≡ false
fits-nil c l r [] = refl
fits-nil c l r (x ∷ xs) = ground (arith, fits-nil c l r xs)

exchange :
    (dx dy can e f g : Bool)
    → (dy && ((dx && can) || e)) || ((dx && f) || g)
      ≡ (dx && ((dy && can) || f)) || ((dy && e) || g)
exchange dx dy can e f g = ground arith

fits-cons :
    (c k : ChannelContext) (l r : Device) (x : Device × String) (xs cs : List (Device × String))
    → IsPeer c k
    → fits c r l cs (x ∷ xs) ≡ (device_eq x.0 l && remote_fits k x.1 r cs) || fits c r l cs xs
fits-cons c k l r x xs [] p = let e = no_remote (device_eq x.0 l) in rw e refl
fits-cons c k l r x xs (y ∷ ys) p =
    ap
      (λ (b : Bool).
        (device_eq y.0 r
          && ((device_eq x.0 l && c.can_communicate_with_remote y.1 x.1) || remote_fits c y.1 l xs))
        || b)
      (fits-cons c k l r x xs ys p)
    ∙ exchange (device_eq x.0 l) (device_eq y.0 r) (c.can_communicate_with_remote y.1 x.1)
        (remote_fits c y.1 l xs) (remote_fits k x.1 r ys) (fits c r l ys xs)
    ∙ ap
        (λ (b : Bool).
          (device_eq x.0 l && ((device_eq y.0 r && b) || remote_fits k x.1 r ys))
          || ((device_eq y.0 r && remote_fits c y.1 l xs) || fits c r l ys xs))
        (sym (p.symmetric x.1 y.1))

pub fits-peer :
    (c k : ChannelContext) (l r : Device) (ks cs : List (Device × String))
    → IsPeer c k
    → fits k l r ks cs ≡ fits c r l cs ks
fits-peer c k l r [] cs p = sym (fits-nil c r l cs)
fits-peer c k l r (x ∷ xs) cs p =
    ap (λ (b : Bool). (device_eq x.0 l && remote_fits k x.1 r cs) || b) (fits-peer c k l r xs cs p)
    ∙ sym (fits-cons c k l r x xs cs p)

-- A channel that is the first to fit a pair is in the answer; the others may be.
pub str_eq_refl : (s t : String) → s ≡ t → str_eq s t ≡ true
str_eq_refl s t e = (eq_iff s t).1 e

pub unnamed : (a b : Bool) → (a || b) ≡ false → (a ≡ false) × (b ≡ false)
unnamed a b h = ground arith

-- `try_channel` by cases of what it does to the answer
pub try_channel-map :
    (c : ChannelContext) (remote : List (String × List (Device × String)))
    (rs : List (Device × String)) (s : SelectedChannels)
    → find_key c.name remote ≡ some rs
    → (((try_channel remote c s).descriptors_map
        ≡ (c.name, c.device_descriptors) ∷ s.descriptors_map))
      ⊎ (((try_channel remote c s).descriptors_map ≡ s.descriptors_map)
          × ((try_channel remote c s).channel_for_device_pair ≡ s.channel_for_device_pair))
unfolding try_channel
try_channel-map c remote rs s e =
    elim (Bool-cases (try_locals c c.device_descriptors rs (false, s.channel_for_device_pair)).0) [
      | inl b ↦ inl (rw (try_channel, e, b) refl)
      | inr b ↦ inr (
          rw (try_channel, e, b)
            (
              refl,
              (try_locals-unselected c c.device_descriptors rs (false, s.channel_for_device_pair)
                  b).1,
            ))
    ]

try_channel-unknown :
    (c : ChannelContext) (remote : List (String × List (Device × String))) (s : SelectedChannels)
    → find_key c.name remote ≡ none
    → try_channel remote c s ≡ s
unfolding try_channel
try_channel-unknown c remote s e = rw (try_channel, e) refl

-- A channel of another name leaves a name's entry alone.
pub find_key-try_channel :
    (name : String) (c : ChannelContext) (remote : List (String × List (Device × String)))
    (s : SelectedChannels)
    → str_eq c.name name ≡ false
    → find_key name (try_channel remote c s).descriptors_map ≡ find_key name s.descriptors_map
unfolding find_key
find_key-try_channel name c remote s n = elim (Option-cases (find_key c.name remote)) [
  | inl e ↦
      ap (λ (t : SelectedChannels). find_key name t.descriptors_map)
        (try_channel-unknown c remote s e)
  | inr (rs, e) ↦ elim (try_channel-map c remote rs s e) [
    | inl m ↦ rw m (rw n refl)
    | inr (m, q) ↦ rw m refl
  ]
]

pub find_key-kept :
    (name : String) (cs : List ChannelContext) (remote : List (String × List (Device × String)))
    (s : SelectedChannels)
    → has_name name cs ≡ false
    → find_key name (select_channels_from cs remote s).descriptors_map
      ≡ find_key name s.descriptors_map
unfolding select_channels_from
find_key-kept name [] remote s h = refl
find_key-kept name (c ∷ cs) remote s h =
    let (n, h') = unnamed _ _ h in
    find_key-kept name cs remote (try_channel remote c s) h'
    ∙ find_key-try_channel name c remote s n

-- The brochure has the descriptors of the other end of each channel.
abbrev pub Knows :
    List ChannelContext → List ChannelContext → List (String × List (Device × String)) → Type 0
Knows [] [] remote = Unit
Knows [] (k ∷ ks) remote = false ≡ true
Knows (c ∷ cs) [] remote = false ≡ true
Knows (c ∷ cs) (k ∷ ks) remote =
    (find_key c.name remote ≡ some k.device_descriptors) × Knows cs ks remote

abbrev pub AreAbsent : List ChannelContext → List (String × List (Device × String)) → Type 0
AreAbsent [] d = Unit
AreAbsent (c ∷ cs) d = (find_key c.name d ≡ none) × AreAbsent cs d

pub str_eq-sym : (s t : String) → str_eq s t ≡ false → str_eq t s ≡ false
str_eq-sym s t h = elim (Bool-cases (str_eq t s)) [
  | inl e ↦ absurd (let q = str_eq_refl s t (sym ((eq_iff t s).0 e)) in ground arith)
  | inr e ↦ e
]

pub try_channel-AreAbsent :
    (c : ChannelContext) (cs : List ChannelContext)
    (remote : List (String × List (Device × String))) (s : SelectedChannels)
    → has_name c.name cs ≡ false
    → AreAbsent cs s.descriptors_map
    → AreAbsent cs (try_channel remote c s).descriptors_map
try_channel-AreAbsent c [] remote s h a = tt
try_channel-AreAbsent c (d ∷ ds) remote s h a =
    let (n, h') = unnamed _ _ h in
    (
      find_key-try_channel d.name c remote s (str_eq-sym d.name c.name n) ∙ a.0,
      try_channel-AreAbsent c ds remote s h' a.1,
    )

pub first_channel-none :
    (l r : Device) (k : ChannelContext) (ks : List ChannelContext)
    (d : List (String × List (Device × String)))
    → find_key k.name d ≡ none
    → first_channel l r (k ∷ ks) d ≡ first_channel l r ks d
first_channel-none l r k ks d e = rw (first_channel, e) refl

pub first_channel-some :
    (l r : Device) (k : ChannelContext) (ks : List ChannelContext)
    (d : List (String × List (Device × String))) (ds : List (Device × String))
    → find_key k.name d ≡ some ds
    → first_channel l r (k ∷ ks) d
      ≡ (if fits k l r k.device_descriptors ds then some k.name else first_channel l r ks d)
first_channel-some l r k ks d ds e = rw (first_channel, e) refl

-- The pair, after a channel that both ends have
pub try_channel-pair :
    (l r : Device) (c : ChannelContext) (rs : List (Device × String))
    (remote : List (String × List (Device × String))) (s : SelectedChannels)
    → find_key c.name remote ≡ some rs
    → find_channel l r s.channel_for_device_pair ≡ none
    → find_channel l r (try_channel remote c s).channel_for_device_pair
      ≡ named (fits c l r c.device_descriptors rs) c.name
unfolding try_channel
try_channel-pair l r c rs remote s e n =
    rw (try_channel, e)
      (try_locals-find c l r c.device_descriptors rs (false, s.channel_for_device_pair)
        ∙ ap (λ (o : Option String). or_else o (named (fits c l r c.device_descriptors rs) c.name))
            n)

pub entry :
    (c : ChannelContext) (remote : List (String × List (Device × String))) (s : SelectedChannels)
    → (try_channel remote c s).descriptors_map ≡ (c.name, c.device_descriptors) ∷ s.descriptors_map
    → find_key c.name (try_channel remote c s).descriptors_map ≡ some c.device_descriptors
unfolding find_key
entry c remote s m = let e = str_eq_refl c.name c.name refl in rw m (rw e refl)
