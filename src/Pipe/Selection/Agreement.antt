-- ===== src/Pipe/Selection/Agreement.antt =====
-- core/pipe_impl.cc: the channels that the two ends of a pipe select.
use Prim.Native.String.{String}
use tensorpipe.Prelude.{
  Bool, true, false, ◌≡◌, refl, sym, ◌∙◌, ap, none, some, List, [], ◌∷◌, arith, inl, inr,
  Bool-cases,
}
use tensorpipe.Pipe.Types.{Device}
use tensorpipe.Pipe.Actions.{find_channel}
use tensorpipe.Pipe.Selection.{
  find_key, ChannelContext, SelectedChannels, try_channel, select_channels_from, select_channels,
}
use tensorpipe.Pipe.Selection.First.{fits, first_channel, named, select_channels-first}
use tensorpipe.Pipe.Selection.Peers.{
  IsPeer, ArePeers, has_name, AreDistinct, describe_channels, fits-peer, str_eq_refl, unnamed,
  try_channel-map, find_key-kept, Knows, AreAbsent, try_channel-AreAbsent, first_channel-none,
  first_channel-some, try_channel-pair, entry, str_eq-sym,
}

agree_fits :
    (c k : ChannelContext) (cs ks : List ChannelContext) (l r : Device)
    (remote : List (String × List (Device × String))) (s : SelectedChannels)
    (d : List (String × List (Device × String)))
    → IsPeer c k
    → find_key c.name remote ≡ some k.device_descriptors
    → find_key c.name d ≡ find_key c.name (try_channel remote c s).descriptors_map
    → find_channel r l s.channel_for_device_pair ≡ none
    → fits c r l c.device_descriptors k.device_descriptors ≡ true
    → first_channel l r (k ∷ ks) d ≡ first_channel r l (c ∷ cs) remote
agree_fits c k cs ks l r remote s d p e g n f =
    let pair = try_channel-pair r l c k.device_descriptors remote s e n in
    let right : first_channel r l (c ∷ cs) remote ≡ some c.name =
      first_channel-some r l c cs remote k.device_descriptors e ∙ rw f refl in
    elim (try_channel-map c remote k.device_descriptors s e) [
      | inl m ↦
          let found : find_key k.name d ≡ some c.device_descriptors =
            rw p.same_name (g ∙ entry c remote s m) in
          let same : fits k l r k.device_descriptors c.device_descriptors ≡ true =
            fits-peer c k l r _ _ p ∙ f in
          first_channel-some l r k ks d c.device_descriptors found
          ∙ rw same (ap some p.same_name)
          ∙ sym right
      | inr (m, q) ↦
          let z : named true c.name ≡ none =
            sym (pair ∙ ap (λ (b : Bool). named b c.name) f) ∙ ap (find_channel r l) q ∙ n in
          absurd (ground arith)
    ]

agree_not :
    (c k : ChannelContext) (cs ks : List ChannelContext) (l r : Device)
    (remote : List (String × List (Device × String))) (s : SelectedChannels)
    (d : List (String × List (Device × String)))
    → IsPeer c k
    → find_key c.name remote ≡ some k.device_descriptors
    → find_key c.name d ≡ find_key c.name (try_channel remote c s).descriptors_map
    → find_key c.name s.descriptors_map ≡ none
    → fits c r l c.device_descriptors k.device_descriptors ≡ false
    → first_channel l r ks d ≡ first_channel r l cs remote
    → first_channel l r (k ∷ ks) d ≡ first_channel r l (c ∷ cs) remote
agree_not c k cs ks l r remote s d p e g a f rest =
    let right : first_channel r l (c ∷ cs) remote ≡ first_channel r l cs remote =
      first_channel-some r l c cs remote k.device_descriptors e ∙ rw f refl in
    elim (try_channel-map c remote k.device_descriptors s e) [
      | inl m ↦
          let found : find_key k.name d ≡ some c.device_descriptors =
            rw p.same_name (g ∙ entry c remote s m) in
          let same : fits k l r k.device_descriptors c.device_descriptors ≡ false =
            fits-peer c k l r _ _ p ∙ f in
          first_channel-some l r k ks d c.device_descriptors found ∙ rw same rest ∙ sym right
      | inr (m, q) ↦
          let found : find_key k.name d ≡ none = rw p.same_name (g ∙ ap (find_key c.name) m ∙ a) in
          first_channel-none l r k ks d found ∙ rest ∙ sym right
    ]

agree :
    (cs ks : List ChannelContext) (l r : Device) (remote : List (String × List (Device × String)))
    (s : SelectedChannels)
    → ArePeers cs ks
    → AreDistinct cs
    → Knows cs ks remote
    → AreAbsent cs s.descriptors_map
    → find_channel r l s.channel_for_device_pair ≡ none
    → first_channel l r ks (select_channels_from cs remote s).descriptors_map
      ≡ first_channel r l cs remote
unfolding select_channels_from
agree [] [] l r remote s p d k a n = refl
agree [] (x ∷ xs) l r remote s p d k a n = ground arith
agree (c ∷ cs) [] l r remote s p d k a n = ground arith
agree (c ∷ cs) (x ∷ xs) l r remote s p d k a n =
    let s' : SelectedChannels = try_channel remote c s in
    let m = (select_channels_from cs remote s').descriptors_map in
    let g = find_key-kept c.name cs remote s' d.0 in
    elim (Bool-cases (fits c r l c.device_descriptors x.device_descriptors)) [
      | inl f ↦ agree_fits c x cs xs l r remote s m p.0 k.0 g n f
      | inr f ↦
          let still = try_channel-pair r l c x.device_descriptors remote s k.0 n ∙ rw f refl in
          agree_not c x cs xs l r remote s m p.0 k.0 g a.0 f (
            agree cs xs l r remote s' p.1 d.1 k.1 (try_channel-AreAbsent c cs remote s d.0 a.1)
              still)
    ]

-- The brochure describes the client's channels.
Knows-cons :
    (cs ks : List ChannelContext) (name : String) (ds : List (Device × String))
    (remote : List (String × List (Device × String)))
    → has_name name cs ≡ false
    → Knows cs ks remote
    → Knows cs ks ((name, ds) ∷ remote)
unfolding find_key
Knows-cons [] [] name ds remote h k = tt
Knows-cons [] (x ∷ xs) name ds remote h k = k
Knows-cons (c ∷ cs) [] name ds remote h k = k
Knows-cons (c ∷ cs) (x ∷ xs) name ds remote h k =
    let (n, h') = unnamed _ _ h in
    let n' = str_eq-sym c.name name n in (rw n' k.0, Knows-cons cs xs name ds remote h' k.1)

describe_channels-Knows :
    (cs ks : List ChannelContext)
    → ArePeers cs ks
    → AreDistinct cs
    → Knows cs ks (describe_channels ks)
unfolding describe_channels find_key
describe_channels-Knows [] [] p d = tt
describe_channels-Knows [] (x ∷ xs) p d = p
describe_channels-Knows (c ∷ cs) [] p d = p
describe_channels-Knows (c ∷ cs) (x ∷ xs) p d =
    let e = str_eq_refl x.name c.name p.0.same_name in
    let name = p.0.same_name in
    (
      rw e refl,
      Knows-cons cs xs x.name x.device_descriptors (describe_channels xs) (rw name d.0)
          (describe_channels-Knows cs xs p.1 d.1),
    )

none_absent : (cs : List ChannelContext) → AreAbsent cs []
unfolding find_key
none_absent [] = tt
none_absent (c ∷ cs) = (refl, none_absent cs)

-- Where the two ends of a pipe have the same channels in the same order of priority, of different
-- names, and no channel answers differently at its two ends: the server, given the client's
-- brochure, and the client, given the channels in the server's answer, select the same channel for
-- every pair of devices.
pub select_channels-agree :
    (cs ks : List ChannelContext) (l r : Device)
    → ArePeers cs ks
    → AreDistinct cs
    → find_channel l r
        (select_channels ks (select_channels cs (describe_channels ks)).descriptors_map
          ).channel_for_device_pair
      ≡ find_channel r l (select_channels cs (describe_channels ks)).channel_for_device_pair
unfolding select_channels find_channel
select_channels-agree cs ks l r p d =
    let server = select_channels cs (describe_channels ks) in
    select_channels-first ks server.descriptors_map l r
    ∙ agree cs ks l r (describe_channels ks) _ p d (describe_channels-Knows cs ks p d)
        (none_absent cs) refl
    ∙ sym (select_channels-first cs (describe_channels ks) r l)
