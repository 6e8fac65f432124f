-- ===== src/Core/Config.antt =====
-- `sdx_parse_config` of lib/core.py on a configuration in which each participant has a port and
-- names participants as its peers.
use ixp_irc.Prelude.{Bool, true, ◌&&◌, [], nat_eq, list_eq, keys, contains, All, ◌≡◌, ◌≢◌}
use ixp_irc.Bgp.Text.{Text}
use ixp_irc.Core.{ParticipantConfig, Tables}

-- The participant has ports, a virtual port, and its entry of `participant_2_port`.
abbrev known : Text → Tables → Bool
known k t =
    contains k (keys t.sdx_ports)
    && (contains k (keys t.sdx_vports) && contains k (keys t.participant_2_port))

abbrev HasPort : Text × ParticipantConfig → Type 0
HasPort en = en.1.ports ≢ []

-- The tables that the loop over the physical ports leaves alone.
record SameTables (t t' : Tables) : Type 0 where
  participants : t'.participants ≡ t.participants
  all_known : (k : Text) → known k t' ≡ known k t

-- The peers of each participant are participants.
abbrev Peered : (Text → Bool) → Text × ParticipantConfig → Type 0
Peered configured en = All (λ k. configured k ≡ true) en.1.peers
