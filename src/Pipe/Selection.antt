-- ===== src/Pipe/Selection.antt =====
-- core/pipe_impl.cc: the choice of the transport and of the channels, by priority. The maps are
-- association lists, in the order in which the code goes through them; what the contexts answer is
-- a function of theirs.
pub mod First
pub mod Peers
pub mod Agreement
use Prim.Native.String.{String}
use text.Mathlib.Text.{◌==◌ as str_eq}
use tensorpipe.Prelude.{
  Bool, true, false, not, ◌||◌, Option, none, some, List, [], ◌∷◌, if◌then◌else◌,
}
use tensorpipe.Pipe.Types.{Device}
use tensorpipe.Pipe.Actions.{has_value, find_channel}

-- `find` on a map whose keys are strings
unfoldable pub find_key {ℓ} : {A : Type ℓ} → String → List (String × A) → Option A
find_key k [] = none
find_key k ((name, a) ∷ rest) = if str_eq name k then some a else find_key k rest

-- What the pipe asks of a `transport::Context`
pub record TransportContext : Type 0 where
  pub name : String
  pub domain_descriptor : String
  pub can_communicate_with_remote : String → Bool

pub record SelectedTransport : Type 0 where
  pub name : String
  pub address : String
  pub domain_descriptor : String

-- One round of the loop of `selectTransport`
unfoldable pub try_transport :
    List (String × String) → List (String × String) → TransportContext → Option SelectedTransport
try_transport remote addresses t = elim (find_key t.name addresses) [
  | none ↦ none
  | some address ↦ elim (find_key t.name remote) [
    | none ↦ none
    | some descriptor ↦
        if t.can_communicate_with_remote descriptor
        then some
            (record { name = t.name; address = address; domain_descriptor = t.domain_descriptor })
        else none
  ]
]

-- `selectTransport`; `none` where it throws
unfoldable pub select_transport :
    List TransportContext
    → List (String × String)
    → List (String × String)
    → Option SelectedTransport
select_transport [] remote addresses = none
select_transport (t ∷ ts) remote addresses = elim (try_transport remote addresses t) [
  | none ↦ select_transport ts remote addresses
  | some selected ↦ some selected
]

-- What the pipe asks of a `channel::Context`
pub record ChannelContext : Type 0 where
  pub name : String
  pub device_descriptors : List (Device × String)
  pub can_communicate_with_remote : String → String → Bool

pub record SelectedChannels : Type 0 where
  pub descriptors_map : List (String × List (Device × String))
  pub channel_for_device_pair : List ((Device × Device) × String)

-- The body of the inner loop of `selectChannels`: whether the channel is selected for the pair, and
-- the pairs
unfoldable pub try_pair :
    ChannelContext
    → Device × String
    → Device × String
    → Bool × List ((Device × Device) × String)
    → Bool × List ((Device × Device) × String)
try_pair c (local, local_descriptor) (remote, remote_descriptor) (selected, pairs) =
    if not (c.can_communicate_with_remote local_descriptor remote_descriptor)
      || has_value (find_channel local remote pairs)
    then (selected, pairs)
    else (true, ((local, remote), c.name) ∷ pairs)

unfoldable pub try_remotes :
    ChannelContext
    → Device × String
    → List (Device × String)
    → Bool × List ((Device × Device) × String)
    → Bool × List ((Device × Device) × String)
try_remotes c l [] x = x
try_remotes c l (r ∷ rs) x = try_remotes c l rs (try_pair c l r x)

unfoldable pub try_locals :
    ChannelContext
    → List (Device × String)
    → List (Device × String)
    → Bool × List ((Device × Device) × String)
    → Bool × List ((Device × Device) × String)
try_locals c [] rs x = x
try_locals c (l ∷ ls) rs x = try_locals c ls rs (try_remotes c l rs x)

-- One round of the loop of `selectChannels`
unfoldable pub try_channel :
    List (String × List (Device × String)) → ChannelContext → SelectedChannels → SelectedChannels
try_channel remote c s = elim (find_key c.name remote) [
  | none ↦ s
  | some rs ↦
      let (selected, pairs) =
        try_locals c c.device_descriptors rs (false, s.channel_for_device_pair) in
      record {
        descriptors_map =
            if selected
            then (c.name, c.device_descriptors) ∷ s.descriptors_map
            else s.descriptors_map;
        channel_for_device_pair = pairs;
      }
]

unfoldable pub select_channels_from :
    List ChannelContext
    → List (String × List (Device × String))
    → SelectedChannels
    → SelectedChannels
select_channels_from [] remote s = s
select_channels_from (c ∷ cs) remote s = select_channels_from cs remote (try_channel remote c s)

-- `selectChannels`
unfoldable pub select_channels :
    List ChannelContext → List (String × List (Device × String)) → SelectedChannels
select_channels cs remote =
    select_channels_from cs remote (record { descriptors_map = []; channel_for_device_pair = [] })
